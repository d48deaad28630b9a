-- ===== src/Worker.antt =====
-- internal/worker/worker.go: one pass over the deliveries that are due. `sink` is the answer of the
-- topic sink to each dispatch, with the delivery's id standing for when the pass calls it: `none` is
-- success, and a text is that of the error. `marshal` is json.Marshal of a payload. The ticker of
-- `Run` is not modelled.
pub mod Backoff
pub mod Marks
pub mod Attempts
pub mod Settled
pub mod Pass
pub mod Rows
pub mod Due
pub mod Passes
pub mod Picked
pub mod Liveness
use device_telemetry_ro.Prelude.{
  if◌then◌else◌, ℕ, zero, suc, ◌+◌, ◌-◌, ◌*◌, not, Option, none, some, List, [], ◌∷◌,
}
use device_telemetry_ro.Prelude.Int.{ℤ, pos, negsuc, leb_ℤ, ltb_ℤ, double64}
use device_telemetry_ro.Prelude.Bytes.{Bytes, codes}
use device_telemetry_ro.Domain.{
  Time, Float64, event_dispatched, event_dead_letter, Event, DeliveryRecord,
}
use device_telemetry_ro.Domain.Errors.{Result, ok, err}
use device_telemetry_ro.Db.{◌>>=◌, ◌>>◌, Exec, pure, throw}
use device_telemetry_ro.Parser.{minute}
use device_telemetry_ro.Store.Devices.{get_event, update_event_status}
use device_telemetry_ro.Store.Deliveries.{
  list_due_deliveries, mark_delivered, mark_failed, mark_dead,
}
use device_telemetry_ro.Service.Effect.{event}

abbrev pub second : ℕ
second = 1_000_000_000

-- `Options`: durations in nanoseconds
pub record Options : Type 0 where
  pub interval : ℤ
  pub batch_size : ℤ
  pub max_attempt : ℤ
  pub base_delay : ℤ

abbrev or_default : ℤ → ℤ → ℤ
or_default n default = if leb_ℤ n (pos 0) then default else n

-- the options of the worker that `New` builds
unfoldable pub with_defaults : Options → Options
with_defaults opts = record {
  interval = or_default opts.interval (pos (2 * second));
  batch_size = or_default opts.batch_size (pos 100);
  max_attempt = or_default opts.max_attempt (pos 5);
  base_delay = or_default opts.base_delay (pos second);
}

-- the loop of `backoff`, with `n` rounds to go
unfoldable pub backoff_loop : ℕ → ℤ → ℤ
backoff_loop zero d = d
backoff_loop (suc n) d =
    let d2 = double64 d in
    let rest = backoff_loop n d2 in if ltb_ℤ (pos minute) d2 then pos minute else rest

-- `backoff`
unfoldable pub backoff : ℤ → ℕ → ℤ
backoff base_delay attempt = backoff_loop (attempt - 1) base_delay

-- `now.Add(d)`
abbrev pub add_time : Time → ℤ → Time
add_time now (pos n) = now + n
add_time now (negsuc n) = now - suc n

-- `DispatchPayload`, whose state is always `StateRouted`
pub record DispatchPayload : Type 0 where
  pub event_id : Bytes
  pub device_id : Bytes
  pub metric : Bytes
  pub value : Float64
  pub unit : Bytes
  pub ts : Time
  pub rule_id : Bytes
  pub topic : Bytes

unfoldable pub payload_of : Event → DeliveryRecord → DispatchPayload
payload_of ev d = record {
  event_id = ev.event_id;
  device_id = ev.device_id;
  metric = ev.metric;
  value = ev.value;
  unit = ev.unit;
  ts = ev.ts;
  rule_id = d.rule_id;
  topic = d.topic;
}

-- `handleFailure`
unfoldable pub handle_failure : Options → DeliveryRecord → Event → Time → Bytes → Exec (Unit {0})
handle_failure opts d ev now text =
    let attempt = suc d.attempts in
    if leb_ℤ opts.max_attempt (pos attempt)
    then mark_dead d.id text now >> update_event_status ev.event_id event_dead_letter
    else mark_failed d.id attempt text (add_time now (backoff opts.base_delay attempt))

module _ (marshal : DispatchPayload → Result Bytes) (sink : ℕ → Bytes → Bytes → Option Bytes) where
  -- what `dispatchOne` does with the sink's answer
  abbrev pub after_dispatch :
      Options → DeliveryRecord → Event → Time → Option Bytes → Exec (Unit {0})
  after_dispatch opts d ev now none =
      mark_delivered d.id now >> update_event_status ev.event_id event_dispatched
  after_dispatch opts d ev now (some text) = handle_failure opts d ev now text

  abbrev pub dispatch_payload :
      Options → DeliveryRecord → Event → Time → Result Bytes → Exec (Unit {0})
  dispatch_payload opts d ev now (ok payload) =
      after_dispatch opts d ev now (sink d.id d.topic payload)
  dispatch_payload opts d ev now (err e) = throw e

  abbrev pub dispatch_event : Options → DeliveryRecord → Time → Option Event → Exec (Unit {0})
  dispatch_event opts d now none = mark_dead d.id (codes "event not found") now
  dispatch_event opts d now (some ev) = dispatch_payload opts d ev now (marshal (payload_of ev d))

  -- `dispatchOne`
  unfoldable pub dispatch_one : Options → Time → DeliveryRecord → Exec (Unit {0})
  dispatch_one opts now d = get_event d.event_id >>= dispatch_event opts d now

  unfoldable pub dispatch_all : Options → Time → List DeliveryRecord → Exec (Unit {0})
  dispatch_all opts now [] = pure tt
  dispatch_all opts now (d ∷ ds) = dispatch_one opts now d >> dispatch_all opts now ds

  -- `processOnce`
  unfoldable pub process_once : Options → Time → Exec (Unit {0})
  process_once opts now = list_due_deliveries now opts.batch_size >>= dispatch_all opts now
