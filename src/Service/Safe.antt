-- ===== src/Service/Safe.antt =====
-- internal/service: the tables after a request that fails.
use device_telemetry_ro.Prelude.{if◌then◌else◌, ℕ, ◌≡◌, Bool, true, false, Option, none, some}
use device_telemetry_ro.Prelude.Int.{ℤ}
use device_telemetry_ro.Prelude.Bytes.{Bytes}
use device_telemetry_ro.Domain.{Time, RawMessage, Event}
use device_telemetry_ro.Domain.Errors.{Error, err}
use device_telemetry_ro.External.{External}
use device_telemetry_ro.Db.{◌>>=◌, ◌>>◌, World, Exec, pure, throw}
use device_telemetry_ro.Router.{match_rules}
use device_telemetry_ro.Parser.{Telemetry, ParseError, Checked, valid, invalid, parse_message}
use device_telemetry_ro.Db.Atomic.{
  IsReadOnly, IsAtomic, IsReadOnly-IsAtomic, query-IsReadOnly, pure-IsReadOnly, throw-IsReadOnly,
  bind-IsReadOnly, bind-IsAtomic, bind_pure-IsAtomic, in_tx-IsAtomic, catch-IsAtomic,
  catch-IsReadOnly,
}
use device_telemetry_ro.Store.Devices.{get_device, find_by_dedup_key, get_event}
use device_telemetry_ro.Store.Rules.{get_rule, list_rules}
use device_telemetry_ro.Service.{or_throw, require, find_device, find_event}
use device_telemetry_ro.Service.Ingest.{
  TelemetryResult, is_err_duplicate, matching, routes_of, result_for, duplicate_result,
  earlier_result, after_error, answer, ingest_parsed, parsed_or, ingest_telemetry,
}
use device_telemetry_ro.Service.RuleChanges.{
  RuleInput, live_rule, merged, new_rule, add_rule, change_rule, delete_rule,
}

pub or_throw-IsReadOnly {ℓ} : {A : Type ℓ} (o : Option A) (e : Error) → IsReadOnly (or_throw o e)
or_throw-IsReadOnly {A = A} none e = throw-IsReadOnly A e
or_throw-IsReadOnly (some a) e = pure-IsReadOnly a

pub require-IsReadOnly : (b : Bool) (e : Error) → IsReadOnly (require b e)
require-IsReadOnly true e = pure-IsReadOnly tt
require-IsReadOnly false e = throw-IsReadOnly (Unit {0}) e

-- A read whose result must be there.
pub found-IsReadOnly {ℓ} :
    {A : Type ℓ} (m : Exec (Option A)) (e : Error)
    → IsReadOnly m
    → IsReadOnly (m >>= λ found. or_throw found e)
found-IsReadOnly m e r = bind-IsReadOnly m (λ o. or_throw o e) r (λ o. or_throw-IsReadOnly o e)

pub require-IsAtomic {ℓ} :
    {A : Type ℓ} (b : Bool) (e : Error) (m : Exec A) → IsAtomic m → IsAtomic (require b e >> m)
require-IsAtomic b e m a = bind-IsAtomic (require b e) (λ _. m) (require-IsReadOnly b e) (λ _. a)

pub find_device-IsReadOnly : (id : Bytes) → IsReadOnly (find_device id)
unfolding find_device get_device
find_device-IsReadOnly id = found-IsReadOnly _ _ (query-IsReadOnly _)

pub find_event-IsReadOnly : (id : Bytes) → IsReadOnly (find_event id)
unfolding find_event get_event
find_event-IsReadOnly id = found-IsReadOnly _ _ (query-IsReadOnly _)

module _ (ext : External) where
  pub matching-IsReadOnly : (ev : Event) → IsReadOnly (matching ext ev)
  unfolding matching list_rules
  matching-IsReadOnly ev =
      bind-IsReadOnly _ (λ rules. pure (match_rules ext ev rules)) (query-IsReadOnly _)
        (λ rules. pure-IsReadOnly _)

  routes_of-IsReadOnly : (id : Bytes) → IsReadOnly (routes_of ext id)
  unfolding get_event
  routes_of-IsReadOnly id = bind-IsReadOnly _ _ (query-IsReadOnly _) (λ found.
      bind-IsReadOnly _ _ (or_throw-IsReadOnly found _)
        (λ ev. bind-IsReadOnly _ _ (matching-IsReadOnly ev) (λ matched. pure-IsReadOnly _)))

  result_for-IsReadOnly : (o : Option Bytes) → IsReadOnly (result_for ext o)
  result_for-IsReadOnly none = pure-IsReadOnly _
  result_for-IsReadOnly (some id) =
      catch-IsReadOnly _ _ (routes_of-IsReadOnly id) (λ e. pure-IsReadOnly _)

  pub duplicate_result-IsReadOnly : (m : RawMessage) → IsReadOnly (duplicate_result ext m)
  unfolding duplicate_result
  duplicate_result-IsReadOnly m = result_for-IsReadOnly m.event_id

  earlier_result-IsReadOnly :
      (o : Option RawMessage) (e : Error) → IsReadOnly (earlier_result ext o e)
  earlier_result-IsReadOnly none e = throw-IsReadOnly TelemetryResult e
  earlier_result-IsReadOnly (some m) e = duplicate_result-IsReadOnly m

  pub if-IsReadOnly {ℓ} :
      {A : Type ℓ} (b : Bool) (m k : Exec A)
      → IsReadOnly m
      → IsReadOnly k
      → IsReadOnly (if b then m else k)
  if-IsReadOnly true m k r s = r
  if-IsReadOnly false m k r s = s

  pub after_error-IsReadOnly : (key : Bytes) (e : Error) → IsReadOnly (after_error ext key e)
  unfolding after_error find_by_dedup_key
  after_error-IsReadOnly key e =
      if-IsReadOnly (is_err_duplicate e) _ _
        (bind-IsReadOnly _ _ (catch-IsReadOnly _ _ (query-IsReadOnly _) (λ _. pure-IsReadOnly none))
          (λ o. earlier_result-IsReadOnly o e))
        (throw-IsReadOnly TelemetryResult e)

  answer-IsAtomic :
      (m : Exec TelemetryResult) (b : Bool) (o : Option RawMessage)
      → IsAtomic m
      → IsAtomic (answer ext m b o)
  answer-IsAtomic m true (some r) a = IsReadOnly-IsAtomic _ (duplicate_result-IsReadOnly r)
  answer-IsAtomic m true none a = a
  answer-IsAtomic m false o a = a

  ingest_parsed-IsAtomic :
      (window : ℤ) (now : Time) (fresh raw_text : Bytes) (tel : Telemetry)
      → IsAtomic (ingest_parsed ext window now fresh raw_text tel)
  unfolding ingest_parsed find_by_dedup_key
  ingest_parsed-IsAtomic window now fresh raw_text tel =
      bind-IsAtomic _ _ (find_device-IsReadOnly tel.device_id) (λ device. require-IsAtomic _ _ _ (
        bind-IsAtomic _ _ (query-IsReadOnly _) (λ existing.
          answer-IsAtomic _ _ existing
            (catch-IsAtomic _ _ (in_tx-IsAtomic _) (λ e. after_error-IsReadOnly _ e)))))

  parsed_or-IsAtomic :
      (text_of : ParseError → Bytes) (c : Checked Telemetry) (f : Telemetry → Exec TelemetryResult)
      → ((tel : Telemetry) → IsAtomic (f tel))
      → IsAtomic (parsed_or ext text_of c f)
  parsed_or-IsAtomic text_of (invalid e) f h =
      IsReadOnly-IsAtomic _ (throw-IsReadOnly TelemetryResult _)
  parsed_or-IsAtomic text_of (valid tel) f h = h tel

  pub ingest_telemetry-IsAtomic :
      (text_of : ParseError → Bytes) (window : ℤ) (now : Time) (fresh raw_text : Bytes)
      → IsAtomic (ingest_telemetry ext text_of window now fresh raw_text)
  unfolding ingest_telemetry
  ingest_telemetry-IsAtomic text_of window now fresh raw_text =
      parsed_or-IsAtomic text_of (parse_message ext raw_text now) _
        (ingest_parsed-IsAtomic window now fresh raw_text)

  -- When `IngestTelemetry` returns an error, the tables are as they were before the request: for any
  -- message, and whichever of its statements, Begin and Commit included, the database fails.
  pub ingest_telemetry-tables :
      (text_of : ParseError → Bytes) (window : ℤ) (now : Time) (fresh raw_text : Bytes) (w : World)
      (e : Error)
      → (ingest_telemetry ext text_of window now fresh raw_text w).0 ≡ err e
      → (ingest_telemetry ext text_of window now fresh raw_text w).1.tables ≡ w.tables
  unfolding IsAtomic
  ingest_telemetry-tables text_of window now fresh raw_text w e h =
      ingest_telemetry-IsAtomic text_of window now fresh raw_text w e h

  pub live_rule-IsReadOnly : (id : Bytes) → IsReadOnly (live_rule id)
  unfolding live_rule get_rule
  live_rule-IsReadOnly id = bind-IsReadOnly _ _ (query-IsReadOnly _) (λ existing.
      bind-IsReadOnly _ _ (require-IsReadOnly _ _) (λ _. or_throw-IsReadOnly existing _))

  pub change_rule-IsAtomic :
      (now : Time) (operator : Option Bytes) (id : Bytes) (input : RuleInput)
      → IsAtomic (change_rule ext now operator id input)
  unfolding change_rule
  change_rule-IsAtomic now operator id input =
      bind-IsAtomic _ _ (live_rule-IsReadOnly id)
        (λ existing. bind_pure-IsAtomic _ (λ _. merged existing input now) (in_tx-IsAtomic _))

  -- When `UpdateRule` returns an error, neither the rule nor the log of changes has changed, nor any
  -- other table: whichever of its statements the database fails.
  pub change_rule-tables :
      (now : Time) (operator : Option Bytes) (id : Bytes) (input : RuleInput) (w : World)
      (e : Error)
      → (change_rule ext now operator id input w).0 ≡ err e
      → (change_rule ext now operator id input w).1.tables ≡ w.tables
  unfolding IsAtomic
  change_rule-tables now operator id input w e h = change_rule-IsAtomic now operator id input w e h

  pub delete_rule-IsAtomic :
      (now : Time) (operator : Option Bytes) (id : Bytes)
      → IsAtomic (delete_rule ext now operator id)
  unfolding delete_rule
  delete_rule-IsAtomic now operator id =
      bind-IsAtomic _ _ (live_rule-IsReadOnly id)
        (λ existing. bind_pure-IsAtomic _ (λ _. tt) (in_tx-IsAtomic _))

  -- When `DeleteRule` returns an error, neither the rule nor the log of changes has changed, nor any
  -- other table: whichever of its statements the database fails.
  pub delete_rule-tables :
      (now : Time) (operator : Option Bytes) (id : Bytes) (w : World) (e : Error)
      → (delete_rule ext now operator id w).0 ≡ err e
      → (delete_rule ext now operator id w).1.tables ≡ w.tables
  unfolding IsAtomic
  delete_rule-tables now operator id w e h = delete_rule-IsAtomic now operator id w e h

  if_throw-IsReadOnly {ℓ} :
      (A : Type ℓ) (b : Bool) (e f : Error) → IsReadOnly (if b then throw {A = A} e else throw f)
  if_throw-IsReadOnly A b e f = if-IsReadOnly b _ _ (throw-IsReadOnly A e) (throw-IsReadOnly A f)

  pub add_rule-IsAtomic :
      (now : Time) (fresh : Bytes) (operator : Option Bytes) (input : RuleInput)
      → IsAtomic (add_rule ext now fresh operator input)
  unfolding add_rule get_rule
  add_rule-IsAtomic now fresh operator input = require-IsAtomic _ _ _ (
      require-IsAtomic _ _ _ (
        bind-IsAtomic _ _ (query-IsReadOnly _) (λ existing. require-IsAtomic _ _ _ (
          bind_pure-IsAtomic _ (λ _. new_rule ext now fresh input)
            (catch-IsAtomic _ _ (in_tx-IsAtomic _) (λ e. if_throw-IsReadOnly ℕ _ _ _))))))

  -- When `CreateRule` returns an error, neither the rules nor the log of changes nor any other table
  -- has changed: whichever of its statements the database fails.
  pub add_rule-tables :
      (now : Time) (fresh : Bytes) (operator : Option Bytes) (input : RuleInput) (w : World)
      (e : Error)
      → (add_rule ext now fresh operator input w).0 ≡ err e
      → (add_rule ext now fresh operator input w).1.tables ≡ w.tables
  unfolding IsAtomic
  add_rule-tables now fresh operator input w e h = add_rule-IsAtomic now fresh operator input w e h
