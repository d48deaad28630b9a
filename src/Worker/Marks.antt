-- ===== src/Worker/Marks.antt =====
-- internal/worker/worker.go: invariants of the tables under the dispatch of one delivery, from what
-- its marks keep.
use device_telemetry_ro.Prelude.Int.{ℤ, pos, leb_ℤ, ltb_ℤ}
use device_telemetry_ro.Prelude.Bytes.{Bytes}
use device_telemetry_ro.Domain.{
  Time, EventStatus, event_dispatched, event_dead_letter, Event, DeliveryRecord,
}
use device_telemetry_ro.Domain.Errors.{Result, ok, err}
use device_telemetry_ro.Db.{Tables}
use device_telemetry_ro.Db.Keeps.{Keeps, if-Keeps, query-Keeps, throw-Keeps, bind-Keeps}
use device_telemetry_ro.Store.Devices.{get_event, update_event_status}
use device_telemetry_ro.Store.Deliveries.{mark_delivered, mark_failed, mark_dead}
use device_telemetry_ro.Worker.{
  Options, DispatchPayload, handle_failure, after_dispatch, dispatch_payload, dispatch_event,
  dispatch_one,
}
use device_telemetry_ro.Prelude.{ℕ, suc, ◌≡◌, true, false, Option, none, some, arith}

below_max :
    (max : ℤ) (attempt : ℕ) → leb_ℤ max (pos attempt) ≡ false → ltb_ℤ (pos attempt) max ≡ true
below_max max attempt e = ground arith

-- What the marks of the delivery keep; a failure is marked below the maximum of attempts only.
pub record MarksKeep (P : Tables → Type 0) (max : ℤ) (d : DeliveryRecord) : Type 0 where
  pub delivered : (at : Time) → Keeps P (mark_delivered d.id at)
  pub dead : (text : Bytes) (at : Time) → Keeps P (mark_dead d.id text at)
  pub failed :
      (attempt : ℕ) (text : Bytes) (next_retry : Time)
      → ltb_ℤ (pos attempt) max ≡ true
      → Keeps P (mark_failed d.id attempt text next_retry)
  pub advanced : (id : Bytes) (status : EventStatus) → Keeps P (update_event_status id status)

module _ (P : Tables → Type 0) (opts : Options) (d : DeliveryRecord)
    (marks : MarksKeep P opts.max_attempt d) where
  handle_failure-Keeps :
      (ev : Event) (now : Time) (text : Bytes) → Keeps P (handle_failure opts d ev now text)
  unfolding handle_failure
  handle_failure-Keeps ev now text =
      if-Keeps P _ _ _
        (λ e.
          bind-Keeps P _ _ (marks.dead text now)
            (λ _. marks.advanced ev.event_id event_dead_letter))
        (λ e. marks.failed (suc d.attempts) text _ (below_max opts.max_attempt (suc d.attempts) e))

  module _ (marshal : DispatchPayload → Result Bytes)
      (sink : ℕ → Bytes → Bytes → Option Bytes) where
    after_dispatch-Keeps :
        (ev : Event) (now : Time) (o : Option Bytes)
        → Keeps P (after_dispatch marshal sink opts d ev now o)
    after_dispatch-Keeps ev now none =
        bind-Keeps P _ _ (marks.delivered now) (λ _. marks.advanced ev.event_id event_dispatched)
    after_dispatch-Keeps ev now (some text) = handle_failure-Keeps ev now text

    dispatch_payload-Keeps :
        (ev : Event) (now : Time) (r : Result Bytes)
        → Keeps P (dispatch_payload marshal sink opts d ev now r)
    dispatch_payload-Keeps ev now (ok payload) = after_dispatch-Keeps ev now _
    dispatch_payload-Keeps ev now (err e) = throw-Keeps P (Unit {0}) e

    dispatch_event-Keeps :
        (now : Time) (o : Option Event) → Keeps P (dispatch_event marshal sink opts d now o)
    dispatch_event-Keeps now none = marks.dead _ now
    dispatch_event-Keeps now (some ev) = dispatch_payload-Keeps ev now _

    pub dispatch_one-Keeps : (now : Time) → Keeps P (dispatch_one marshal sink opts now d)
    unfolding dispatch_one get_event
    dispatch_one-Keeps now = bind-Keeps P _ _ (query-Keeps P _) (dispatch_event-Keeps now)
