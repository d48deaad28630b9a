-- ===== src/Http.antt =====
-- internal/httpapi: requests, responses and errors. A body that is written as JSON is the value that
-- is encoded; decoding a request's body is a parameter.
pub mod Handlers
pub mod Server
pub mod Rolled
pub mod Routing
pub mod Reads
pub mod Errors
pub mod Guard
pub mod Ingested
pub mod Ids
pub mod Lifecycle
use device_telemetry_ro.Prelude.{◌==◌, if◌then◌else◌, ℕ, List}
use device_telemetry_ro.Prelude.Bytes.{Bytes, codes}
use device_telemetry_ro.Domain.{
  Device, Event, RouteRule, RouteRuleChangeLog, DeliveryRecord, ApiKeyAudit,
}
use device_telemetry_ro.Domain.Errors.{
  ApiError, err_invalid_field, err_checksum_mismatch, err_device_not_found, err_device_conflict,
  err_device_inactive, err_duplicate_message, err_rule_conflict, err_rule_not_found,
  err_unknown_metric, err_ts_out_of_range, err_event_not_found, err_duplicate, Details, Error, api,
  driver, status_of, message_of, Result, ok, err,
}
use device_telemetry_ro.Parser.{invalid}
use device_telemetry_ro.Db.{World, Exec}
use device_telemetry_ro.Service.Ingest.{TelemetryResult}
use device_telemetry_ro.Service.Listing.{EventPage, Stats}
use device_telemetry_ro.Service.Replay.{ReplayResult}
use device_telemetry_ro.Service.Replayed.{missing}

pub record Request : Type 0 where
  pub method : Bytes
  pub path : Bytes
  -- the value of X-API-Key, empty when there is none
  pub api_key : Bytes
  pub remote : Bytes
  -- the first value of a parameter of the query, empty when there is none
  pub query_value : Bytes → Bytes
  pub body : Bytes

-- what a response shows, by the value that a handler gives to `writeJSON`, or the file it serves
pub data Body : Type 0 where
  alive : Body
  error_body : Bytes → Bytes → Details → Body
  plain_error : Bytes → Bytes → Body
  device_body : Device → Body
  devices_body : List Device → Body
  status_body : Bytes → Bytes → Body
  telemetry_body : TelemetryResult → Body
  rule_body : RouteRule → Body
  rules_body : List RouteRule → Body
  deleted_body : Bytes → Body
  changes_body : List RouteRuleChangeLog → Body
  events_body : EventPage → Body
  event_body : Event → Body
  stats_body : Stats → Body
  deliveries_body : List DeliveryRecord → Body
  replay_body : ReplayResult → Body
  audit_body : List ApiKeyAudit → Body
  metrics_body : Bytes → Body
  file_body : Bytes → Body
  not_found_body : Body
  mux_body : Body

pub record Response : Type 0 where
  pub status : ℕ
  pub body : Body

abbrev pub write_json : ℕ → Body → Response
write_json status body = record { status = status; body = body }

unfoldable pub code_of : ApiError → Bytes
code_of err_invalid_field = codes "INVALID_FIELD"
code_of err_checksum_mismatch = codes "CHECKSUM_MISMATCH"
code_of err_device_not_found = codes "DEVICE_NOT_FOUND"
code_of err_device_conflict = codes "DEVICE_CONFLICT"
code_of err_device_inactive = codes "DEVICE_INACTIVE"
code_of err_duplicate_message = codes "DUPLICATE_MESSAGE"
code_of err_rule_conflict = codes "RULE_CONFLICT"
code_of err_rule_not_found = codes "RULE_NOT_FOUND"
code_of err_unknown_metric = codes "UNKNOWN_METRIC"
code_of err_ts_out_of_range = codes "TS_OUT_OF_RANGE"
code_of err_event_not_found = codes "EVENT_NOT_FOUND"
code_of err_duplicate = codes "DUPLICATE_MESSAGE"

-- the status of `writeError`: an error with status 200 is answered with 500
unfoldable pub error_status : ApiError → ℕ
error_status e = if status_of e == 200 then 500 else status_of e

-- `writeError`
unfoldable pub write_error : Error → Response
write_error (api e d) = write_json (error_status e) (error_body (code_of e) (message_of e) d)
write_error (driver text) =
    write_json 500 (plain_error (codes "INTERNAL_ERROR") (codes "internal server error"))

-- `writeUnauthorized`
unfoldable pub unauthorized : Response
unauthorized =
    write_json 401 (plain_error (codes "UNAUTHORIZED") (codes "invalid or missing api key"))

abbrev pub render {ℓ} : {A : Type ℓ} → (A → Response) → Result A × World → Response × World
render f (ok a, w) = (f a, w)
render f (err e, w) = (write_error e, w)

-- a handler that calls the service and writes its result or its error
unfoldable pub respond {ℓ} : {A : Type ℓ} → Exec A → (A → Response) → World → Response × World
respond m f w = render f (m w)
