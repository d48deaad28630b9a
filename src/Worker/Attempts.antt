-- ===== src/Worker/Attempts.antt =====
-- internal/worker/worker.go with internal/service: how often a delivery is tried.
use device_telemetry_ro.Prelude.{
  ◌==◌, All, ℕ, ◌≡◌, refl, Bool, true, not, ◌||◌, Option, List, [], ◌∷◌,
}
use device_telemetry_ro.Prelude.Int.{ℤ, pos, ltb_ℤ}
use device_telemetry_ro.Prelude.Bytes.{Bytes}
use device_telemetry_ro.Domain.{Time, EventStatus, DeliveryRecord}
use device_telemetry_ro.Domain.Errors.{Result}
use device_telemetry_ro.Db.{Tables, World, update}
use device_telemetry_ro.Db.Keeps.{Keeps, query-Keeps, pure-Keeps, bind-Keeps, update-Keeps}
use device_telemetry_ro.Store.{All-change_where}
use device_telemetry_ro.Store.Devices.{update_event_status}
use device_telemetry_ro.Store.Deliveries.{
  is_waiting, list_due_deliveries, change_delivery, mark_delivered, mark_failed, mark_dead,
}
use device_telemetry_ro.Worker.{Options, DispatchPayload, dispatch_all, process_once}
use device_telemetry_ro.Worker.Marks.{MarksKeep, dispatch_one-Keeps}

abbrev pub within_attempts : ℤ → DeliveryRecord → Bool
within_attempts max d = not (is_waiting d.status) || ltb_ℤ (pos d.attempts) max

-- A delivery that waits has been tried less often than `max`.
unfoldable pub WithinAttempts : ℤ → DeliveryRecord → Type 0
WithinAttempts max d = within_attempts max d ≡ true

unfoldable pub RetryBound : ℤ → Tables → Type 0
RetryBound max t = All (WithinAttempts max) t.deliveries

module _ (max : ℤ) where
  change_delivery-Keeps :
      (id : ℕ) (f : DeliveryRecord → DeliveryRecord)
      → ((d : DeliveryRecord) → WithinAttempts max (f d))
      → Keeps (RetryBound max) (update (change_delivery id f))
  unfolding RetryBound
  change_delivery-Keeps id f h =
      update-Keeps (RetryBound max) _
        (λ t a. All-change_where (λ d. d.id == id) f t.deliveries (λ d _. h d) a)

  mark_delivered-Keeps : (id : ℕ) (at : Time) → Keeps (RetryBound max) (mark_delivered id at)
  unfolding mark_delivered WithinAttempts
  mark_delivered-Keeps id at = change_delivery-Keeps id _ (λ d. refl)

  mark_dead-Keeps :
      (id : ℕ) (text : Bytes) (at : Time) → Keeps (RetryBound max) (mark_dead id text at)
  unfolding mark_dead WithinAttempts
  mark_dead-Keeps id text at = change_delivery-Keeps id _ (λ d. refl)

  mark_failed-Keeps :
      (id attempt : ℕ) (text : Bytes) (next_retry : Time)
      → ltb_ℤ (pos attempt) max ≡ true
      → Keeps (RetryBound max) (mark_failed id attempt text next_retry)
  unfolding mark_failed WithinAttempts
  mark_failed-Keeps id attempt text next_retry h = change_delivery-Keeps id _ (λ d. h)

  update_event_status-Keeps :
      (id : Bytes) (status : EventStatus) → Keeps (RetryBound max) (update_event_status id status)
  unfolding update_event_status RetryBound
  update_event_status-Keeps id status = update-Keeps (RetryBound max) _ (λ t a. a)

module _ (opts : Options) where
  marks : (d : DeliveryRecord) → MarksKeep (RetryBound opts.max_attempt) opts.max_attempt d
  marks d = record {
    delivered = mark_delivered-Keeps opts.max_attempt d.id;
    dead = mark_dead-Keeps opts.max_attempt d.id;
    failed = mark_failed-Keeps opts.max_attempt d.id;
    advanced = update_event_status-Keeps opts.max_attempt;
  }

  module _ (marshal : DispatchPayload → Result Bytes)
      (sink : ℕ → Bytes → Bytes → Option Bytes) where
    dispatch_all-Keeps :
        (now : Time) (ds : List DeliveryRecord)
        → Keeps (RetryBound opts.max_attempt) (dispatch_all marshal sink opts now ds)
    unfolding dispatch_all
    dispatch_all-Keeps now [] = pure-Keeps (RetryBound opts.max_attempt) tt
    dispatch_all-Keeps now (d ∷ ds) =
        bind-Keeps (RetryBound opts.max_attempt) _ _
          (dispatch_one-Keeps (RetryBound opts.max_attempt) opts d (marks d) marshal sink now)
          (λ _. dispatch_all-Keeps now ds)

    process_once-Keeps :
        (now : Time) → Keeps (RetryBound opts.max_attempt) (process_once marshal sink opts now)
    unfolding process_once list_due_deliveries
    process_once-Keeps now =
        bind-Keeps (RetryBound opts.max_attempt) _ _ (query-Keeps (RetryBound opts.max_attempt) _)
          (dispatch_all-Keeps now)

    -- A pass of the worker keeps every waiting delivery, pending or failed, below the worker's
    -- maximum of attempts: whatever the sink answers and whichever statements the database fails.
    pub process_once-RetryBound :
        (now : Time) (w : World)
        → RetryBound opts.max_attempt w.tables
        → RetryBound opts.max_attempt (process_once marshal sink opts now w).1.tables
    unfolding Keeps
    process_once-RetryBound now w h = process_once-Keeps now w h
