-- ===== src/Worker/Liveness.antt =====
-- internal/worker/worker.go: the passes of the loop of `Run`, one for each tick, and what they make of
-- the deliveries that wait. The answers of the sink may differ from one pass to the next.
-- the ticks at which `Run` makes a pass, and the sink of each pass; an error of a pass is logged
use device_telemetry_ro.Prelude.{
  leb, if◌then◌else◌, length, find, All, length-map, ℕ, suc, ◌+◌, ◌*◌, ◌^◌, ◌≤◌, ◌≡◌, refl, sym, ap,
  subst, Bool, true, false, not, ◌&&◌, ◌||◌, Option, none, some, List, [], ◌∷◌, arith,
}
use device_telemetry_ro.Prelude.Int.{pos, leb_ℤ}
use device_telemetry_ro.Prelude.Bytes.{Bytes, eqb}
use device_telemetry_ro.Domain.{Time, Event, DeliveryRecord}
use device_telemetry_ro.Domain.Errors.{Result, ok}
use device_telemetry_ro.Parser.{minute}
use device_telemetry_ro.Db.{Tables, Sequences, World, world}
use device_telemetry_ro.Store.Deliveries.{is_waiting, is_due}
use device_telemetry_ro.Worker.{
  Options, backoff, add_time, DispatchPayload, payload_of, process_once,
}
use device_telemetry_ro.Worker.Backoff.{smaller, backoff-smaller}
use device_telemetry_ro.Worker.Pass.{
  Sink, refused, answered, tried, changed, pass_step, pass_step-id,
}
use device_telemetry_ro.Worker.Due.{UniqueIds, All-map, UniqueIds-map}
use device_telemetry_ro.Worker.Passes.{batch, process_once-pass_step}

unfoldable pub run_passes :
    (DispatchPayload → Result Bytes) → Options → List (Time × Sink) → World → World
run_passes marshal opts [] w = w
run_passes marshal opts ((now, sink) ∷ ps) w =
    run_passes marshal opts ps (process_once marshal sink opts now w).1

-- The first tick is not before `start`, and each tick is at least a minute after the one before.
unfoldable pub Spaced : Time → List (Time × Sink) → Type 0
Spaced start [] = Unit
Spaced start ((now, sink) ∷ ps) = (start ≤ now) × Spaced (now + minute) ps

due-waits : (now : Time) (d : DeliveryRecord) → is_due now d ≡ true → is_waiting d.status ≡ true
unfolding is_due
due-waits now d e = ground arith

enough : (w a m l : Bool) → w ≡ true → not w || a && m && l ≡ true → m ≡ true
enough w a m l e h = ground arith

not_waiting : (w a m l : Bool) → not w || a && m && l ≡ true → (a ≡ true → w ≡ false) → w ≡ false
not_waiting true true m l h f = f refl
not_waiting true false m l h f = cc
not_waiting false a m l h f = refl

settled : (w r : Bool) → w ≡ false → not w || r ≡ true
settled w r e = rw e refl

never : {b : Bool} → b ≡ true → b ≡ false → ⊥
never p q = cc

-- `k` passes after `start` are enough for the delivery.
abbrev ready : Time → ℕ → ℕ → DeliveryRecord → Bool
ready start max k d =
    not (is_waiting d.status) || is_due start d && leb max (d.attempts + k) && leb 1 k

due_later : (t now : Time) (d : DeliveryRecord) → t ≤ now → is_due t d ≡ true → is_due now d ≡ true
unfolding is_due
due_later t now d h e = ground arith

at_most_ceiling : (now a m : ℕ) → now + smaller a m ≤ now + m
at_most_ceiling now a m = ground arith

all_three : (a b c : Bool) → a ≡ true → b ≡ true → c ≡ true → a && b && c ≡ true
all_three a b c p q r = rw p (rw q r)

below_last :
    (max n k : ℕ)
    → leb_ℤ (pos max) (pos (suc n)) ≡ false
    → leb max (n + suc k) ≡ true
    → (leb max (suc n + k) ≡ true) × (leb 1 k ≡ true)
below_last max n k e h = (ground arith, ground arith)

backoff_time :
    (base now n : ℕ) → base ≤ minute → add_time now (backoff (pos base) (suc n)) ≤ now + minute
backoff_time base now n h =
    rw (backoff-smaller base n h) (at_most_ceiling now (base * 2 ^ n) minute)

module _ (encode : DispatchPayload → Bytes) (opts : Options) (sink : Sink) (max base now k : ℕ)
    (is_max : opts.max_attempt ≡ pos max) (is_base : opts.base_delay ≡ pos base)
    (short : base ≤ minute) where
  reached : (a b : ℕ) → a ≤ b → leb a b ≡ true
  reached a b h = ground arith

  refused-ready :
      (d : DeliveryRecord) (text : Bytes) (b : Bool)
      → leb_ℤ opts.max_attempt (pos (suc d.attempts)) ≡ b
      → leb max (d.attempts + suc k) ≡ true
      → ready (now + minute) max k (refused encode opts sink now d text b d) ≡ true
  unfolding is_due
  refused-ready d text true e h = refl
  refused-ready d text false e h =
      let (m, l) =
        below_last max d.attempts k (subst (λ z. leb_ℤ z (pos (suc d.attempts)) ≡ false) is_max e)
          h in
      all_three _ _ _ (in_time d.attempts) m l
    where
      in_time : (n : ℕ) → leb (add_time now (backoff opts.base_delay (suc n))) (now + minute) ≡ true
      in_time n = reached _ _ (
          subst (λ z. add_time now (backoff z (suc n)) ≤ now + minute) (sym is_base)
            (backoff_time base now n short))

  answered-ready :
      (d : DeliveryRecord) (o : Option Bytes)
      → leb max (d.attempts + suc k) ≡ true
      → ready (now + minute) max k (answered encode opts sink now d o d) ≡ true
  answered-ready d none h = refl
  answered-ready d (some text) h = refused-ready d text _ refl h

  tried-ready :
      (d : DeliveryRecord) (o : Option Event)
      → leb max (d.attempts + suc k) ≡ true
      → ready (now + minute) max k (tried encode opts sink now d o d) ≡ true
  tried-ready d none h = refl
  tried-ready d (some ev) h = answered-ready d (sink d.id d.topic (encode (payload_of ev d))) h

  step-ready :
      (es : List Event) (start : Time) (d : DeliveryRecord)
      → start ≤ now
      → ready start max (suc k) d ≡ true
      → ready (now + minute) max k (pass_step encode opts sink now es d) ≡ true
  unfolding pass_step changed
  step-ready es start d before_ h = chosen (is_due now d) refl
    where
      chosen :
          (b : Bool)
          → is_due now d ≡ b
          → ready (now + minute) max k (if b then changed encode opts sink now es d d else d) ≡ true
      chosen true e = tried-ready d (find (λ e. eqb e.event_id d.event_id) es) (
          enough (is_waiting d.status) (is_due start d) (leb max (d.attempts + suc k))
            (leb 1 (suc k)) (due-waits now d e) h)
      chosen false e = settled (is_waiting d.status) _ (
          not_waiting (is_waiting d.status) (is_due start d) (leb max (d.attempts + suc k))
            (leb 1 (suc k)) h (λ p. absurd (never (due_later start now d before_ p) e)))

All-imp {ℓ κ ι} :
    {A : Type ℓ} (P : A → Type κ) (Q : A → Type ι) (l : List A)
    → ((x : A) → P x → Q x)
    → All P l
    → All Q l
All-imp P Q [] h a = tt
All-imp P Q (x ∷ xs) h (p, a) = (h x p, All-imp P Q xs h a)

AllReady : Time → ℕ → ℕ → List DeliveryRecord → Type 0
AllReady start max k ds = All (λ d. ready start max k d ≡ true) ds

finished : (w a m : Bool) → not w || a && m && leb 1 0 ≡ true → w ≡ false
finished w a m h = ground arith

startable :
    (w a : Bool) (max n k : ℕ)
    → not w || a ≡ true
    → max ≤ k
    → 1 ≤ k
    → not w || a && leb max (n + k) && leb 1 k ≡ true
startable true true max n k h m l = ground arith
startable true false max n k h m l = cc
startable false a max n k h m l = refl

module _ (encode : DispatchPayload → Bytes) (opts : Options) (max base : ℕ)
    (is_max : opts.max_attempt ≡ pos max) (is_base : opts.base_delay ≡ pos base)
    (short : base ≤ minute) where
  passes-settled :
      (ps : List (Time × Sink)) (start : Time) (t : Tables) (s : Sequences)
      → Spaced start ps
      → UniqueIds t.deliveries
      → length t.deliveries ≤ batch opts
      → AllReady start max (length ps) t.deliveries
      → All
          (λ d. is_waiting d.status ≡ false)
          (run_passes (λ p. ok (encode p)) opts ps (world t s [])).tables.deliveries
  unfolding run_passes Spaced AllReady
  passes-settled [] start t s sp u h r =
      All-imp _ _ t.deliveries
        (λ d e. finished (is_waiting d.status) (is_due start d) (leb max (d.attempts + 0)) e) r
  passes-settled ((now, sink) ∷ ps) start t s (later, sp) u h r =
      let (t', ran, rows) = process_once-pass_step encode opts sink now t s u h in
      let step = pass_step encode opts sink now t.events in
      subst
        (λ w.
          All (λ d. is_waiting d.status ≡ false)
            (run_passes (λ p. ok (encode p)) opts ps w).tables.deliveries)
        (sym (ap (λ z. z.1) ran))
        (passes-settled ps (now + minute) t' s sp
          (subst UniqueIds (sym rows)
            (UniqueIds-map step t.deliveries (pass_step-id encode opts sink now t.events) u))
          (subst (λ l. length l ≤ batch opts) (sym rows)
            (subst (λ n. n ≤ batch opts) (sym (length-map step t.deliveries)) h))
          (subst (AllReady (now + minute) max (length ps)) (sym rows) (
            All-map _ _ step t.deliveries
              (λ d e.
                step-ready encode opts sink max base now (length ps) is_max is_base short t.events
                  start d later e)
              r)))

  -- Passes at least a minute apart, as many as the maximum of attempts and at least one, leave no
  -- delivery pending or failed, whatever the sink answers in each pass: for a base delay of at most a
  -- minute, on a database that answers, for payloads that json.Marshal accepts, if every delivery
  -- that waits is due at the first pass, no two rows share an id, and the batch admits every row.
  pub run_passes-settled :
      (ps : List (Time × Sink)) (start : Time) (t : Tables) (s : Sequences)
      → Spaced start ps
      → 1 ≤ length ps
      → max ≤ length ps
      → UniqueIds t.deliveries
      → length t.deliveries ≤ batch opts
      → All (λ d. not (is_waiting d.status) || is_due start d ≡ true) t.deliveries
      → All
          (λ d. is_waiting d.status ≡ false)
          (run_passes (λ p. ok (encode p)) opts ps (world t s [])).tables.deliveries
  unfolding AllReady
  run_passes-settled ps start t s sp one enough u h due = passes-settled ps start t s sp u h (
      All-imp _ _ t.deliveries
        (λ d e.
          startable (is_waiting d.status) (is_due start d) max d.attempts (length ps) e enough one)
        due)
