-- ===== src/Service/Ingest.antt =====
-- internal/service/service.go: `IngestTelemetry`. `text_of` is fmt's text of a parse error, and
-- `window` the dedup window of `New`.
use device_telemetry_ro.Prelude.{
  if◌then◌else◌, Bool, true, false, not, ◌&&◌, Option, none, some, List, [], ◌∷◌, map,
}
use device_telemetry_ro.Prelude.Int.{ℤ}
use device_telemetry_ro.Prelude.Bytes.{Bytes}
use device_telemetry_ro.Domain.{
  Time, DeviceStatus, device_active, RawStatus, raw_parsed, RawMessage, event_created, Event,
  RouteRule, delivery_pending,
}
use device_telemetry_ro.Domain.Errors.{
  err_invalid_field, err_device_inactive, err_event_not_found, err_duplicate, cause, Error, api,
  with_details,
}
use device_telemetry_ro.External.{External}
use device_telemetry_ro.Db.{◌>>=◌, ◌>>◌, Exec, pure, throw, catch, in_tx}
use device_telemetry_ro.Router.{match_rules, topics}
use device_telemetry_ro.Parser.{Telemetry, ParseError, Checked, valid, invalid, parse_message}
use device_telemetry_ro.Store.Devices.{
  touch_seen, insert_raw, find_by_dedup_key, create_event, get_event,
}
use device_telemetry_ro.Store.Rules.{list_rules}
use device_telemetry_ro.Store.Deliveries.{create_delivery}
use device_telemetry_ro.Dedup.{dedup_key, within_window}
use device_telemetry_ro.Service.{plain, or_throw, require, find_device}

pub record TelemetryResult : Type 0 where
  pub event_id : Bytes
  pub duplicate : Bool
  pub matched_rules : List Bytes
  pub topics : List Bytes

abbrev pub duplicate_of : Bytes → List RouteRule → TelemetryResult
duplicate_of id matched = record {
  event_id = id;
  duplicate = true;
  matched_rules = map (λ r. r.rule_id) matched;
  topics = topics matched;
}

abbrev pub is_active : DeviceStatus → Bool
is_active device_active = true
is_active _ = false

abbrev pub is_parsed : RawStatus → Bool
is_parsed raw_parsed = true
is_parsed _ = false

abbrev pub is_err_duplicate : Error → Bool
is_err_duplicate (api err_duplicate d) = true
is_err_duplicate _ = false

-- `existing != nil && existing.Status == domain.RawParsed`
abbrev pub is_known : Option RawMessage → Bool
is_known none = false
is_known (some m) = is_parsed m.status

-- one delivery for each matched rule, with the topic of the same index
unfoldable pub deliver : Time → Bytes → List RouteRule → List Bytes → Exec (Unit {0})
deliver now id [] _ = pure tt
deliver now id (r ∷ rs) [] = pure tt
deliver now id (r ∷ rs) (t ∷ ts) = do
  _ ← create_delivery (record {
    id = 0;
    event_id = id;
    rule_id = r.rule_id;
    topic = t;
    status = delivery_pending;
    attempts = 0;
    last_error = [];
    next_retry_at = some now;
    dispatched_at = none;
  })
  deliver now id rs ts

module _ (ext : External) where
  unfoldable pub matching : Event → Exec (List RouteRule)
  matching ev = list_rules false >>= λ rules. pure (match_rules ext ev rules)

  -- the rules and topics of the event that an accepted message made
  abbrev pub routes_of : Bytes → Exec TelemetryResult
  routes_of id = do
    found ← get_event id
    ev ← or_throw found (plain err_event_not_found)
    matched ← matching ev
    pure (duplicate_of id matched)

  abbrev pub result_for : Option Bytes → Exec TelemetryResult
  result_for none = pure (duplicate_of [] [])
  result_for (some id) = catch (routes_of id) (λ e. pure (duplicate_of id []))

  -- `duplicateResult`, which ignores the errors of its reads
  unfoldable pub duplicate_result : RawMessage → Exec TelemetryResult
  duplicate_result existing = result_for existing.event_id

  abbrev pub event_of : Telemetry → Time → Bytes → Bytes → Event
  event_of tel now event_id key = record {
    id = 0;
    event_id = event_id;
    device_id = tel.device_id;
    ts = tel.ts;
    metric = tel.metric;
    value = tel.value;
    unit = tel.unit;
    dedup_key = key;
    route_key = tel.metric;
    status = event_created;
    parsed_at = now;
  }

  abbrev pub raw_of : Telemetry → Bytes → Time → Bytes → Bytes → RawMessage
  raw_of tel raw_text now event_id key = record {
    id = 0;
    device_id = tel.device_id;
    raw_text = raw_text;
    checksum_received = tel.checksum;
    checksum_expected = tel.checksum;
    received_at = now;
    dedup_key = key;
    status = raw_parsed;
    parse_error = [];
    event_id = some event_id;
  }

  -- the function that `IngestTelemetry` gives to `InTx`
  unfoldable pub record_telemetry : Time → Bytes → Bytes → Bytes → Telemetry → Exec TelemetryResult
  record_telemetry now fresh key raw_text tel = do
    existing ← find_by_dedup_key key
    require (not (is_known existing)) (plain err_duplicate)
    _ ← create_event (event_of tel now fresh key)
    _ ← insert_raw (raw_of tel raw_text now fresh key)
    _ ← touch_seen tel.device_id now
    matched ← matching (event_of tel now fresh key)
    _ ← deliver now fresh matched (topics matched)
    pure (record {
      event_id = fresh;
      duplicate = false;
      matched_rules = map (λ r. r.rule_id) matched;
      topics = topics matched;
    })

  abbrev pub earlier_result : Option RawMessage → Error → Exec TelemetryResult
  earlier_result none e = throw e
  earlier_result (some m) e = duplicate_result m

  -- what follows an error of the transaction
  unfoldable pub after_error : Bytes → Error → Exec TelemetryResult
  after_error key e =
      if is_err_duplicate e
      then catch (find_by_dedup_key key) (λ _. pure none) >>= (λ found. earlier_result found e)
      else throw e

  abbrev pub is_recent : Time → ℤ → Option RawMessage → Bool
  is_recent now window none = false
  is_recent now window (some m) = is_parsed m.status && within_window m.received_at now window

  -- the check outside the transaction, and else the transaction
  abbrev pub answer : Exec TelemetryResult → Bool → Option RawMessage → Exec TelemetryResult
  answer store true (some m) = duplicate_result m
  answer store _ _ = store

  unfoldable pub ingest_parsed : ℤ → Time → Bytes → Bytes → Telemetry → Exec TelemetryResult
  ingest_parsed window now fresh raw_text tel = do
    device ← find_device tel.device_id
    require (is_active device.status) (plain err_device_inactive)
    let key = dedup_key ext tel.device_id tel.ts tel.metric tel.value tel.unit
    existing ← find_by_dedup_key key
    answer (catch (in_tx (record_telemetry now fresh key raw_text tel)) (after_error key))
        (is_recent now window existing) existing

  abbrev pub parsed_or :
      (ParseError → Bytes)
      → Checked Telemetry
      → (Telemetry → Exec TelemetryResult)
      → Exec TelemetryResult
  parsed_or text_of (invalid e) f = throw (with_details err_invalid_field (cause (text_of e)))
  parsed_or text_of (valid tel) f = f tel

  -- `IngestTelemetry`
  unfoldable pub ingest_telemetry :
      (ParseError → Bytes) → ℤ → Time → Bytes → Bytes → Exec TelemetryResult
  ingest_telemetry text_of window now fresh raw_text =
      parsed_or text_of (parse_message ext raw_text now) (ingest_parsed window now fresh raw_text)
