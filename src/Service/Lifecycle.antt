-- ===== src/Service/Lifecycle.antt =====
-- internal/service and internal/auth: the rows of the deliveries stay in order under each operation.
-- An operation that only reads keeps any invariant.
use device_telemetry_ro.Prelude.{
  any, ℕ, refl, sym, subst, Bool, true, false, Option, none, some, List, [], ◌∷◌,
}
use device_telemetry_ro.Prelude.Int.{ℤ}
use device_telemetry_ro.Prelude.Bytes.{Bytes, eqb}
use device_telemetry_ro.Domain.{Time, DeviceStatus, Device, RawMessage, RouteRule, ApiKeyAudit}
use device_telemetry_ro.Domain.Errors.{Error}
use device_telemetry_ro.External.{External}
use device_telemetry_ro.Db.{◌>>=◌, ◌>>◌, Tables, Exec}
use device_telemetry_ro.Parser.{Telemetry, ParseError, Checked, valid, invalid, parse_message}
use device_telemetry_ro.Db.Atomic.{IsReadOnly, query-IsReadOnly}
use device_telemetry_ro.Db.Keeps.{
  Keeps, if-Keeps, pure-Keeps, throw-Keeps, bind-Keeps, catch-Keeps, in_tx-Keeps,
}
use device_telemetry_ro.Store.Devices.{find_by_dedup_key}
use device_telemetry_ro.Store.Rules.{get_rule}
use device_telemetry_ro.Store.Deliveries.{list_deliveries_by_event}
use device_telemetry_ro.Store.Lifecycle.{
  in_order, InOrder, create_device-Keeps, insert_raw-Keeps, create_event-Keeps, create_rule-Keeps,
  append_change-Keeps, record_audit-Keeps, create_delivery-Keeps, set_status-Keeps,
  touch_seen-Keeps, update_rule-Keeps, soft_delete-Keeps,
}
use device_telemetry_ro.Service.{require, is_unique_violation, register_device, set_device_status}
use device_telemetry_ro.Service.Ingest.{
  TelemetryResult, deliver, record_telemetry, answer, ingest_parsed, parsed_or, ingest_telemetry,
}
use device_telemetry_ro.Service.RuleChanges.{RuleInput, add_rule, change_rule, delete_rule}
use device_telemetry_ro.Service.Replay.{deliver_missing, replay_event}
use device_telemetry_ro.Service.Safe.{
  require-IsReadOnly, find_device-IsReadOnly, find_event-IsReadOnly, matching-IsReadOnly,
  duplicate_result-IsReadOnly, after_error-IsReadOnly, live_rule-IsReadOnly,
}
use device_telemetry_ro.Auth.{KeyEntry, KeyMap, audited, decided, authenticate}

pub IsReadOnly-Keeps {ℓ κ} :
    {A : Type ℓ} (P : Tables → Type κ) (m : Exec A) → IsReadOnly m → Keeps P m
unfolding IsReadOnly Keeps
IsReadOnly-Keeps P m r w p = subst P (sym (r w)) p

require_then {ℓ} :
    {A : Type ℓ} (b : Bool) (e : Error) (m : Exec A)
    → Keeps InOrder m
    → Keeps InOrder (require b e >> m)
require_then b e m k =
    bind-Keeps InOrder _ _ (IsReadOnly-Keeps InOrder _ (require-IsReadOnly b e)) (λ _. k)

read_then {ℓ κ} :
    {A : Type ℓ} {B : Type κ} (m : Exec A) (f : A → Exec B)
    → IsReadOnly m
    → ((a : A) → Keeps InOrder (f a))
    → Keeps InOrder (m >>= f)
read_then m f r k = bind-Keeps InOrder m f (IsReadOnly-Keeps InOrder m r) k

deliver-Keeps :
    (now : Time) (id : Bytes) (rs : List RouteRule) (ts : List Bytes)
    → Keeps InOrder (deliver now id rs ts)
unfolding deliver in_order
deliver-Keeps now id [] ts = pure-Keeps InOrder tt
deliver-Keeps now id (r ∷ rs) [] = pure-Keeps InOrder tt
deliver-Keeps now id (r ∷ rs) (t ∷ ts) =
    bind-Keeps InOrder _ _ (create_delivery-Keeps _ refl) (λ _. deliver-Keeps now id rs ts)

deliver_missing-Keeps :
    (now : Time) (id : Bytes) (pending : List Bytes) (rs : List RouteRule)
    → Keeps InOrder (deliver_missing now id pending rs)
unfolding deliver_missing in_order
deliver_missing-Keeps now id pending [] = pure-Keeps InOrder []
deliver_missing-Keeps now id pending (r ∷ rs) =
    let rest = deliver_missing-Keeps now id pending rs in
    if-Keeps InOrder (any (λ x. eqb x r.rule_id) pending) _ _ (λ _. rest)
      (λ _.
        bind-Keeps InOrder _ _ (create_delivery-Keeps _ refl)
          (λ _. bind-Keeps InOrder _ _ rest (λ created. pure-Keeps InOrder _)))

module _ (ext : External) where
  pub register_device-Keeps :
      (now : Time) (id name version metadata : Bytes)
      → Keeps InOrder (register_device ext now id name version metadata)
  unfolding register_device
  register_device-Keeps now id name version metadata = require_then _ _ _ (
      require_then _ _ _ (
        catch-Keeps InOrder _ _
          (bind-Keeps InOrder _ _ (create_device-Keeps _) (λ _. pure-Keeps InOrder _))
          (λ e.
            if-Keeps InOrder (is_unique_violation ext e) _ _ (λ _. throw-Keeps InOrder Device _)
              (λ _. throw-Keeps InOrder Device e))))

  pub set_device_status-Keeps :
      (at : Time) (id : Bytes) (status : DeviceStatus)
      → Keeps InOrder (set_device_status at id status)
  unfolding set_device_status
  set_device_status-Keeps at id status =
      read_then _ _ (find_device-IsReadOnly id)
        (λ _. require_then _ _ _ (set_status-Keeps id status at))

  record_telemetry-Keeps :
      (now : Time) (fresh key raw_text : Bytes) (tel : Telemetry)
      → Keeps InOrder (record_telemetry ext now fresh key raw_text tel)
  unfolding record_telemetry find_by_dedup_key
  record_telemetry-Keeps now fresh key raw_text tel =
      read_then _ _ (query-IsReadOnly _) (λ existing. require_then _ _ _ (
        bind-Keeps InOrder _ _ (create_event-Keeps _) (λ _.
          bind-Keeps InOrder _ _ (insert_raw-Keeps _) (λ _.
            bind-Keeps InOrder _ _ (touch_seen-Keeps _ _) (λ _.
              read_then _ _ (matching-IsReadOnly ext _) (λ matched.
                bind-Keeps InOrder _ _ (deliver-Keeps now fresh matched _)
                  (λ _. pure-Keeps InOrder _)))))))

  answer-Keeps :
      (m : Exec TelemetryResult) (b : Bool) (o : Option RawMessage)
      → Keeps InOrder m
      → Keeps InOrder (answer ext m b o)
  answer-Keeps m true (some r) k = IsReadOnly-Keeps InOrder _ (duplicate_result-IsReadOnly ext r)
  answer-Keeps m true none k = k
  answer-Keeps m false o k = k

  ingest_parsed-Keeps :
      (window : ℤ) (now : Time) (fresh raw_text : Bytes) (tel : Telemetry)
      → Keeps InOrder (ingest_parsed ext window now fresh raw_text tel)
  unfolding ingest_parsed find_by_dedup_key
  ingest_parsed-Keeps window now fresh raw_text tel =
      read_then _ _ (find_device-IsReadOnly tel.device_id) (λ device. require_then _ _ _ (
        read_then _ _ (query-IsReadOnly _) (λ existing. answer-Keeps _ _ existing (
          catch-Keeps InOrder _ _
            (in_tx-Keeps InOrder _ (record_telemetry-Keeps now fresh _ raw_text tel))
            (λ e. IsReadOnly-Keeps InOrder _ (after_error-IsReadOnly ext _ e))))))

  parsed_or-Keeps :
      (text_of : ParseError → Bytes) (c : Checked Telemetry) (f : Telemetry → Exec TelemetryResult)
      → ((tel : Telemetry) → Keeps InOrder (f tel))
      → Keeps InOrder (parsed_or ext text_of c f)
  parsed_or-Keeps text_of (invalid e) f h = throw-Keeps InOrder TelemetryResult _
  parsed_or-Keeps text_of (valid tel) f h = h tel

  pub ingest_telemetry-Keeps :
      (text_of : ParseError → Bytes) (window : ℤ) (now : Time) (fresh raw_text : Bytes)
      → Keeps InOrder (ingest_telemetry ext text_of window now fresh raw_text)
  unfolding ingest_telemetry
  ingest_telemetry-Keeps text_of window now fresh raw_text =
      parsed_or-Keeps text_of (parse_message ext raw_text now) _
        (ingest_parsed-Keeps window now fresh raw_text)

  pub add_rule-Keeps :
      (now : Time) (fresh : Bytes) (operator : Option Bytes) (input : RuleInput)
      → Keeps InOrder (add_rule ext now fresh operator input)
  unfolding add_rule get_rule
  add_rule-Keeps now fresh operator input = require_then _ _ _ (
      require_then _ _ _ (
        read_then _ _ (query-IsReadOnly _) (λ existing. require_then _ _ _ (
          bind-Keeps InOrder _ _
            (catch-Keeps InOrder _ _
              (in_tx-Keeps InOrder _
                (bind-Keeps InOrder _ _ (create_rule-Keeps _) (λ _. append_change-Keeps _)))
              (λ e.
                if-Keeps InOrder (is_unique_violation ext e) _ _ (λ _. throw-Keeps InOrder ℕ _)
                  (λ _. throw-Keeps InOrder ℕ e)))
            (λ _. pure-Keeps InOrder _)))))

  pub change_rule-Keeps :
      (now : Time) (operator : Option Bytes) (id : Bytes) (input : RuleInput)
      → Keeps InOrder (change_rule ext now operator id input)
  unfolding change_rule
  change_rule-Keeps now operator id input = read_then _ _ (live_rule-IsReadOnly ext id) (λ existing.
      bind-Keeps InOrder _ _
        (in_tx-Keeps InOrder _
          (bind-Keeps InOrder _ _ (update_rule-Keeps _) (λ _. append_change-Keeps _)))
        (λ _. pure-Keeps InOrder _))

  pub delete_rule-Keeps :
      (now : Time) (operator : Option Bytes) (id : Bytes)
      → Keeps InOrder (delete_rule ext now operator id)
  unfolding delete_rule
  delete_rule-Keeps now operator id = read_then _ _ (live_rule-IsReadOnly ext id) (λ existing.
      bind-Keeps InOrder _ _
        (in_tx-Keeps InOrder _
          (bind-Keeps InOrder _ _ (soft_delete-Keeps id now) (λ _. append_change-Keeps _)))
        (λ _. pure-Keeps InOrder tt))

  pub replay_event-Keeps : (now : Time) (id : Bytes) → Keeps InOrder (replay_event ext now id)
  unfolding replay_event list_deliveries_by_event
  replay_event-Keeps now id = read_then _ _ (find_event-IsReadOnly id) (λ ev.
      read_then _ _ (matching-IsReadOnly ext ev) (λ matched.
        read_then _ _ (query-IsReadOnly _) (λ existing.
          bind-Keeps InOrder _ _ (deliver_missing-Keeps now id _ matched)
            (λ created. pure-Keeps InOrder _))))

  audited-Keeps {ℓ} : {A : Type ℓ} (row : ApiKeyAudit) (a : A) → Keeps InOrder (audited ext row a)
  unfolding audited
  audited-Keeps row a =
      catch-Keeps InOrder _ _
        (bind-Keeps InOrder _ _ (record_audit-Keeps row) (λ _. pure-Keeps InOrder a))
        (λ _. pure-Keeps InOrder a)

  decided-Keeps :
      (at : Time) (h remote path : Bytes) (o : Option KeyEntry)
      → Keeps InOrder (decided ext at h remote path o)
  decided-Keeps at h remote path none = audited-Keeps _ none
  decided-Keeps at h remote path (some e) =
      if-Keeps InOrder e.enabled _ _ (λ _. audited-Keeps _ _) (λ _. audited-Keeps _ _)

  pub authenticate-Keeps :
      (keys : KeyMap) (at : Time) (presented remote path : Bytes)
      → Keeps InOrder (authenticate ext keys at presented remote path)
  unfolding authenticate
  authenticate-Keeps keys at presented remote path = decided-Keeps at _ remote path _
