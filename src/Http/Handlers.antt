-- ===== src/Http/Handlers.antt =====
-- internal/httpapi: the handlers of the resources. The clock and the random choices of a request are
-- in `Env`; the decoders of bodies and the parsers of numbers are in `Codec`.
use device_telemetry_ro.Prelude.{if◌then◌else◌, ℕ, zero, suc, Option, none, some, List, [], ◌∷◌}
use device_telemetry_ro.Prelude.Int.{ℤ}
use device_telemetry_ro.Prelude.Bytes.{Bytes, codes, eqb}
use device_telemetry_ro.Domain.{
  Time, DeviceStatus, device_pending, device_active, device_suspended, device_deleted,
  other_device_status,
}
use device_telemetry_ro.Domain.Errors.{err_invalid_field, field, cause, with_details}
use device_telemetry_ro.External.{External}
use device_telemetry_ro.Parser.{ParseError}
use device_telemetry_ro.Db.{World}
use device_telemetry_ro.Store.Listing.{list_devices, EventFilter}
use device_telemetry_ro.Service.{register_device, find_device, set_device_status, find_event}
use device_telemetry_ro.Service.Ingest.{TelemetryResult, ingest_telemetry}
use device_telemetry_ro.Service.RuleChanges.{
  RuleInput, add_rule, change_rule, delete_rule, find_rule,
}
use device_telemetry_ro.Service.Listing.{
  events_page, stats, live_rules, rule_changes, audit_entries,
}
use device_telemetry_ro.Service.Replay.{replay_event, list_deliveries}
use device_telemetry_ro.Http.{
  Request, device_body, devices_body, status_body, telemetry_body, rule_body, rules_body,
  deleted_body, changes_body, events_body, event_body, stats_body, deliveries_body, replay_body,
  audit_body, Response, write_json, write_error, respond,
}

pub record Env : Type 0 where
  pub now : Time
  -- the clock of the store, and that of the authenticator
  pub store_now : Time
  pub auth_now : Time
  pub fresh_id : Bytes
  -- the draws of `rand.Int`, below the length of the alphabet; `none` is an error
  pub draw : ℕ → Option ℕ

-- `createDeviceReq`
pub record CreateDeviceReq : Type 0 where
  pub device_id : Bytes
  pub name : Bytes
  pub protocol_version : Bytes
  pub metadata : Bytes

pub data Decoded {ℓ} (A : Type ℓ) : Type ℓ where
  decoded : A → Decoded A
  undecodable : Bytes → Decoded A

-- encoding/json with unknown fields refused, and strconv.Atoi with its value on an error
pub record Codec : Type 0 where
  pub decode_device : Bytes → Decoded CreateDeviceReq
  pub decode_status : Bytes → Decoded Bytes
  pub decode_telemetry : Bytes → Decoded Bytes
  pub decode_rule : Bytes → Decoded RuleInput
  pub atoi : Bytes → ℤ

abbrev pub alphabet : Bytes
alphabet = codes "ABCDEFGHIJKLMNOPQRSTUVWXYZ0123456789"

abbrev pub nth_or : ℕ → List ℕ → ℕ → ℕ
nth_or default [] n = default
nth_or default (x ∷ xs) zero = x
nth_or default (x ∷ xs) (suc n) = nth_or default xs n

-- One round of the loop of `newDeviceID`. An index that rand.Int draws is below the length of the
-- alphabet, so the default of `nth_or` is not reached.
unfoldable pub drawn : Option ℕ → ℕ
drawn none = b'A'
drawn (some n) = nth_or b'A' alphabet n

abbrev pub drawn_from : (ℕ → Option ℕ) → ℕ → ℕ → Bytes
drawn_from draw i zero = []
drawn_from draw i (suc n) = drawn (draw i) ∷ drawn_from draw (suc i) n

-- `newDeviceID`
unfoldable pub new_device_id : (ℕ → Option ℕ) → Bytes
new_device_id draw = drawn_from draw 0 12

-- the conversion of a string to `domain.DeviceStatus`
unfoldable pub device_status : Bytes → DeviceStatus
device_status s =
    if eqb s (codes "pending")
    then device_pending
    else if eqb s (codes "active")
    then device_active
    else if eqb s (codes "suspended")
    then device_suspended
    else if eqb s (codes "deleted")
    then device_deleted
    else other_device_status s

abbrev pub bad_body : Bytes → World → Response × World
bad_body text w = (write_error (with_details err_invalid_field (cause text)), w)

-- `decodeJSON` and the early return on its error
abbrev pub with_body {ℓ} :
    {A : Type ℓ} → Decoded A → (A → World → Response × World) → World → Response × World
with_body (decoded a) f = f a
with_body (undecodable text) f = bad_body text

module _ (ext : External) (text_of : ParseError → Bytes) (window : ℤ) (codec : Codec)
    (env : Env) where
  unfoldable pub register : CreateDeviceReq → World → Response × World
  register req =
      respond
        (register_device ext env.now
          (if eqb req.device_id [] then new_device_id env.draw else req.device_id) req.name
          req.protocol_version req.metadata)
        (λ d. write_json 201 (device_body d))

  unfoldable pub handle_create_device : Request → World → Response × World
  handle_create_device r = with_body (codec.decode_device r.body) register

  unfoldable pub handle_list_devices : World → Response × World
  handle_list_devices = respond list_devices (λ ds. write_json 200 (devices_body ds))

  unfoldable pub handle_get_device : Bytes → World → Response × World
  handle_get_device id = respond (find_device id) (λ d. write_json 200 (device_body d))

  unfoldable pub handle_device_status : Bytes → Request → World → Response × World
  handle_device_status id r = with_body (codec.decode_status r.body) (λ status.
      respond (set_device_status env.store_now id (device_status status))
        (λ _. write_json 200 (status_body id status)))

  abbrev pub no_raw_text : World → Response × World
  no_raw_text w = (write_error (with_details err_invalid_field (field (codes "raw_text"))), w)

  abbrev pub telemetry_status : TelemetryResult → ℕ
  telemetry_status res = if res.duplicate then 200 else 201

  abbrev pub telemetry_answer : TelemetryResult → Response
  telemetry_answer res = write_json (telemetry_status res) (telemetry_body res)

  abbrev pub ingest_body : Bytes → World → Response × World
  ingest_body raw_text =
      if eqb raw_text []
      then no_raw_text
      else respond (ingest_telemetry ext text_of window env.now env.fresh_id raw_text)
          telemetry_answer

  unfoldable pub handle_telemetry : Request → World → Response × World
  handle_telemetry r = with_body (codec.decode_telemetry r.body) ingest_body

  unfoldable pub handle_create_rule : Option Bytes → Request → World → Response × World
  handle_create_rule operator r = with_body (codec.decode_rule r.body) (λ input.
      respond (add_rule ext env.now env.fresh_id operator input)
        (λ rl. write_json 201 (rule_body rl)))

  unfoldable pub handle_list_rules : World → Response × World
  handle_list_rules = respond live_rules (λ rs. write_json 200 (rules_body rs))

  unfoldable pub handle_get_rule : Bytes → World → Response × World
  handle_get_rule id = respond (find_rule id) (λ rl. write_json 200 (rule_body rl))

  unfoldable pub handle_update_rule : Option Bytes → Bytes → Request → World → Response × World
  handle_update_rule operator id r = with_body (codec.decode_rule r.body) (λ input.
      respond (change_rule ext env.now operator id input) (λ rl. write_json 200 (rule_body rl)))

  unfoldable pub handle_delete_rule : Option Bytes → Bytes → World → Response × World
  handle_delete_rule operator id =
      respond (delete_rule ext env.now operator id) (λ _. write_json 200 (deleted_body id))

  unfoldable pub handle_rule_changes : Bytes → World → Response × World
  handle_rule_changes id = respond (rule_changes id) (λ cs. write_json 200 (changes_body cs))

  -- a bound of the query: left out when it is empty or no time
  abbrev pub bound_of : Bytes → Option Time
  bound_of v = if eqb v [] then none else ext.parse_time v

  unfoldable pub filter_of : Request → EventFilter
  filter_of r = record {
    device_id = r.query_value (codes "device_id");
    metric = r.query_value (codes "metric");
    from = bound_of (r.query_value (codes "from"));
    to = bound_of (r.query_value (codes "to"));
    status = r.query_value (codes "status");
    page = codec.atoi (r.query_value (codes "page"));
    size = codec.atoi (r.query_value (codes "size"));
  }

  unfoldable pub handle_list_events : Request → World → Response × World
  handle_list_events r =
      respond (events_page ext (filter_of r)) (λ p. write_json 200 (events_body p))

  unfoldable pub handle_get_event : Bytes → World → Response × World
  handle_get_event id = respond (find_event id) (λ e. write_json 200 (event_body e))

  unfoldable pub handle_stats : World → Response × World
  handle_stats = respond stats (λ s. write_json 200 (stats_body s))

  unfoldable pub handle_list_deliveries : Bytes → World → Response × World
  handle_list_deliveries id =
      respond (list_deliveries id) (λ ds. write_json 200 (deliveries_body ds))

  unfoldable pub handle_replay_event : Bytes → World → Response × World
  handle_replay_event id =
      respond (replay_event ext env.now id) (λ res. write_json 200 (replay_body res))

  unfoldable pub handle_list_audit : Request → World → Response × World
  handle_list_audit r =
      respond (audit_entries (codec.atoi (r.query_value (codes "limit"))))
        (λ items. write_json 200 (audit_body items))
