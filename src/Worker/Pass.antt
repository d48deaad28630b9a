-- ===== src/Worker/Pass.antt =====
-- internal/worker/worker.go: what a pass of the worker makes of each delivery, on a database that
-- answers, for payloads that json.Marshal accepts.
use device_telemetry_ro.Prelude.{
  if◌then◌else◌, Bool-cases, find, ℕ, suc, ◌≡◌, refl, inl, inr, Bool, true, false, Option, none,
  some, List, [], ◌∷◌,
}
use device_telemetry_ro.Prelude.Int.{pos, leb_ℤ}
use device_telemetry_ro.Prelude.Bytes.{Bytes, codes, eqb}
use device_telemetry_ro.Domain.{
  Time, EventStatus, Event, delivery_dispatched, delivery_failed, delivery_dead, DeliveryRecord,
}
use device_telemetry_ro.Store.{change_where}
use device_telemetry_ro.Store.Deliveries.{is_due}
use device_telemetry_ro.Worker.{Options, backoff, add_time, DispatchPayload, payload_of}

abbrev pub Sink : Type 0
Sink = ℕ → Bytes → Bytes → Option Bytes

module _ (encode : DispatchPayload → Bytes) (opts : Options) (sink : Sink) (now : Time) where
  -- what a failure makes of a row: whether it was the last attempt, and the error's text
  abbrev pub refused : DeliveryRecord → Bytes → Bool → DeliveryRecord → DeliveryRecord
  refused d text true x = record x {
    status = delivery_dead;
    last_error = text;
    next_retry_at = none;
    dispatched_at = some now;
  }
  refused d text false x = record x {
    status = delivery_failed;
    attempts = suc d.attempts;
    last_error = text;
    next_retry_at = some (add_time now (backoff opts.base_delay (suc d.attempts)));
  }

  -- what the answer of the sink for `d` makes of a row
  abbrev pub answered : DeliveryRecord → Option Bytes → DeliveryRecord → DeliveryRecord
  answered d none x = record x {
    status = delivery_dispatched;
    attempts = suc x.attempts;
    last_error = [];
    next_retry_at = none;
    dispatched_at = some now;
  }
  answered d (some text) x = refused d text (leb_ℤ opts.max_attempt (pos (suc d.attempts))) x

  abbrev pub tried : DeliveryRecord → Option Event → DeliveryRecord → DeliveryRecord
  tried d none x = record x {
    status = delivery_dead;
    last_error = codes "event not found";
    next_retry_at = none;
    dispatched_at = some now;
  }
  tried d (some ev) x = answered d (sink d.id d.topic (encode (payload_of ev d))) x

  unfoldable pub changed : List Event → DeliveryRecord → DeliveryRecord → DeliveryRecord
  changed es d x = tried d (find (λ e. eqb e.event_id d.event_id) es) x

  -- A delivery that is due is dispatched, dead or to be tried again; any other stays as it is.
  unfoldable pub pass_step : List Event → DeliveryRecord → DeliveryRecord
  pass_step es d = if is_due now d then changed es d d else d

  refused-id :
      (d : DeliveryRecord) (text : Bytes) (b : Bool) (x : DeliveryRecord)
      → (refused d text b x).id ≡ x.id
  refused-id d text true x = refl
  refused-id d text false x = refl

  answered-id :
      (d : DeliveryRecord) (o : Option Bytes) (x : DeliveryRecord) → (answered d o x).id ≡ x.id
  answered-id d none x = refl
  answered-id d (some text) x = refused-id d text _ x

  tried-id : (d : DeliveryRecord) (o : Option Event) (x : DeliveryRecord) → (tried d o x).id ≡ x.id
  tried-id d none x = refl
  tried-id d (some ev) x = answered-id d (sink d.id d.topic (encode (payload_of ev d))) x

  pub changed-id : (es : List Event) (d x : DeliveryRecord) → (changed es d x).id ≡ x.id
  unfolding changed
  changed-id es d x = tried-id d (find (λ e. eqb e.event_id d.event_id) es) x

  pub pass_step-id : (es : List Event) (d : DeliveryRecord) → (pass_step es d).id ≡ d.id
  unfolding pass_step
  pass_step-id es d = chosen (is_due now d)
    where
      chosen : (b : Bool) → (if b then changed es d d else d).id ≡ d.id
      chosen true = changed-id es d d
      chosen false = refl

  -- The status of an event makes no difference.
  find_status :
      (id wanted : Bytes) (s : EventStatus) (d x : DeliveryRecord) (es : List Event)
      → tried d
          (find
            (λ e. eqb e.event_id wanted)
            (change_where (λ e. eqb e.event_id id) (λ e. record e { status = s }) es))
          x
        ≡ tried d (find (λ e. eqb e.event_id wanted) es) x
  unfolding payload_of
  find_status id wanted s d x [] = refl
  find_status id wanted s d x (e ∷ es) = elim (Bool-cases (eqb e.event_id id)) [
    | inl b ↦ rw b (elim (Bool-cases (eqb e.event_id wanted)) [
      | inl c ↦ rw c refl
      | inr c ↦ rw c (find_status id wanted s d x es)
    ])
    | inr b ↦ rw b (elim (Bool-cases (eqb e.event_id wanted)) [
      | inl c ↦ rw c refl
      | inr c ↦ rw c (find_status id wanted s d x es)
    ])
  ]

  pub changed-status :
      (id : Bytes) (s : EventStatus) (d x : DeliveryRecord) (es : List Event)
      → changed (change_where (λ e. eqb e.event_id id) (λ e. record e { status = s }) es) d x
        ≡ changed es d x
  unfolding changed
  changed-status id s d x es = find_status id d.event_id s d x es
