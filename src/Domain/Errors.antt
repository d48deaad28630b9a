-- ===== src/Domain/Errors.antt =====
-- internal/domain/errors.go: the errors of the API. Two errors are the same when they are one of the
-- package's variables, so an error is its variable's name with the details attached to it; an error
-- of the database driver is its text.
use device_telemetry_ro.Prelude.Bytes.{Bytes, codes}
use device_telemetry_ro.Prelude.{ℕ}

pub data ApiError : Type 0 where
  err_invalid_field err_checksum_mismatch err_device_not_found err_device_conflict : ApiError
  err_device_inactive err_duplicate_message err_rule_conflict err_rule_not_found : ApiError
  err_unknown_metric err_ts_out_of_range err_event_not_found err_duplicate : ApiError

-- `map[string]any{"field": f}` and `map[string]any{"cause": err.Error()}`
pub data Details : Type 0 where
  no_details : Details
  field : Bytes → Details
  cause : Bytes → Details

pub data Error : Type 0 where
  api : ApiError → Details → Error
  driver : Bytes → Error

-- the `Status` of each variable; `err_duplicate` is service.errDuplicate
unfoldable pub status_of : ApiError → ℕ
status_of err_invalid_field = 422
status_of err_checksum_mismatch = 422
status_of err_device_not_found = 404
status_of err_device_conflict = 409
status_of err_device_inactive = 422
status_of err_duplicate_message = 200
status_of err_rule_conflict = 409
status_of err_rule_not_found = 404
status_of err_unknown_metric = 422
status_of err_ts_out_of_range = 422
status_of err_event_not_found = 404
status_of err_duplicate = 200

unfoldable pub message_of : ApiError → Bytes
message_of err_invalid_field = codes "invalid field"
message_of err_checksum_mismatch = codes "checksum mismatch"
message_of err_device_not_found = codes "device not found"
message_of err_device_conflict = codes "device already exists"
message_of err_device_inactive = codes "device is not active"
message_of err_duplicate_message = codes "duplicate message"
message_of err_rule_conflict = codes "rule conflict"
message_of err_rule_not_found = codes "rule not found"
message_of err_unknown_metric = codes "unknown metric"
message_of err_ts_out_of_range = codes "timestamp out of range"
message_of err_event_not_found = codes "event not found"
message_of err_duplicate = codes "duplicate message"

-- `WithDetails`
unfoldable pub with_details : ApiError → Details → Error
with_details e d = api e d

pub data Result {ℓ} (A : Type ℓ) : Type ℓ where
  ok : A → Result A
  err : Error → Result A
