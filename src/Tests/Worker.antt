-- ===== src/Tests/Worker.antt =====
-- Passes of the worker over a delivery that was sent and one that failed.
use device_telemetry_ro.Prelude.{
  length, All, ◌+◌, ◌*◌, ◌≤◌, ◌≡◌, refl, true, false, not, ◌||◌, List, [], ◌∷◌, arith,
}
use device_telemetry_ro.Prelude.Bytes.{Bytes}
use device_telemetry_ro.Domain.{Time, DeliveryRecord}
use device_telemetry_ro.Domain.Errors.{ok}
use device_telemetry_ro.Parser.{minute}
use device_telemetry_ro.Db.{Tables, world}
use device_telemetry_ro.Store.Deliveries.{is_waiting, is_due}
use device_telemetry_ro.Worker.{DispatchPayload, process_once}
use device_telemetry_ro.Worker.Pass.{Sink, pass_step}
use device_telemetry_ro.Worker.Due.{UniqueIds}
use device_telemetry_ro.Worker.Passes.{batch}
use device_telemetry_ro.Worker.Picked.{IsPass, process_once-IsPass}
use device_telemetry_ro.Worker.Liveness.{run_passes, Spaced, run_passes-settled}
use device_telemetry_ro.Tests.Requests.{sample_tables, no_sequences, strict, refuse}

abbrev no_bytes : DispatchPayload → Bytes
no_bytes p = []

abbrev sample_rows : List DeliveryRecord
sample_rows = sample_tables.deliveries

sample-UniqueIds : UniqueIds sample_rows
unfolding UniqueIds
sample-UniqueIds = (refl, (refl, tt))

sample-batch : length sample_rows ≤ batch strict
unfolding batch
sample-batch = omega arith

process_once-IsPass_example :
    (t' : Tables) × (process_once
        (λ p. ok (no_bytes p))
        refuse
        strict
        6
        (world sample_tables no_sequences [])
      ≡ (ok tt, world t' no_sequences []))
    × IsPass
        (batch strict)
        (is_due 6)
        (pass_step no_bytes strict refuse 6 sample_tables.events)
        sample_rows
        t'.deliveries
process_once-IsPass_example =
    process_once-IsPass no_bytes strict refuse 6 sample_tables no_sequences sample-UniqueIds

abbrev ticks : List (Time × Sink)
ticks =
    (6, refuse)
    ∷ (6 + minute, refuse)
    ∷ (6 + 2 * minute, refuse)
    ∷ (6 + 3 * minute, refuse)
    ∷ (6 + 4 * minute, refuse)
    ∷ []

ticks-Spaced : Spaced 6 ticks
unfolding Spaced
ticks-Spaced = (omega arith, (omega arith, (omega arith, (omega arith, (omega arith, tt)))))

sample_rows-due : All (λ d. not (is_waiting d.status) || is_due 6 d ≡ true) sample_rows
unfolding is_due
sample_rows-due = (refl, (refl, tt))

run_passes-settled_example :
    All
      (λ d. is_waiting d.status ≡ false)
      (run_passes
        (λ p. ok (no_bytes p))
        strict
        ticks
        (world sample_tables no_sequences [])).tables.deliveries
run_passes-settled_example =
    run_passes-settled no_bytes strict 5 1 refl refl (omega arith) ticks 6 sample_tables
      no_sequences ticks-Spaced (omega arith) (omega arith) sample-UniqueIds sample-batch
      sample_rows-due
