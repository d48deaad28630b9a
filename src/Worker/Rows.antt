-- ===== src/Worker/Rows.antt =====
-- internal/worker/worker.go: a pass of the worker, row by row, on a database that answers.
use device_telemetry_ro.Prelude.{
  ◌==◌, if◌then◌else◌, find, suc, ◌≡◌, refl, sym, ap, ◌∙◌, Bool, true, false, Option, none, some,
  List, [], ◌∷◌, map,
}
use device_telemetry_ro.Prelude.Int.{pos, leb_ℤ}
use device_telemetry_ro.Prelude.Bytes.{Bytes, eqb}
use device_telemetry_ro.Domain.{Time, event_dispatched, event_dead_letter, Event, DeliveryRecord}
use device_telemetry_ro.Domain.Errors.{Result, ok}
use device_telemetry_ro.Db.{
  ◌>>=◌, ◌>>◌, Tables, Sequences, world, Exec, continue, pure, statement, query, update,
}
use device_telemetry_ro.Store.Devices.{get_event, update_event_status}
use device_telemetry_ro.Store.Deliveries.{mark_delivered, mark_failed, mark_dead}
use device_telemetry_ro.Worker.{
  Options, backoff, add_time, DispatchPayload, payload_of, handle_failure, after_dispatch,
  dispatch_event, dispatch_one, dispatch_all,
}
use device_telemetry_ro.Worker.Pass.{Sink, refused, answered, tried, changed, changed-status}

map-map {ℓ} :
    {A : Type ℓ} (f g h : A → A) (xs : List A)
    → ((x : A) → f (g x) ≡ h x)
    → map f (map g xs) ≡ map h xs
map-map f g h [] e = refl
map-map f g h (x ∷ xs) e = rw (e x) (ap (λ l. h x ∷ l) (map-map f g h xs e))

map_id {ℓ} : {A : Type ℓ} (xs : List A) → map (λ x. x) xs ≡ xs
map_id [] = refl
map_id (x ∷ xs) = ap (λ l. x ∷ l) (map_id xs)

module _ (encode : DispatchPayload → Bytes) (opts : Options) (sink : Sink) (now : Time) where
  abbrev pub marshal_all : DispatchPayload → Result Bytes
  marshal_all p = ok (encode p)

  -- The run gives no error, changes the deliveries as stated, and no event but in its status.
  unfoldable pub Changes :
      Exec (Unit {0}) → (DeliveryRecord → DeliveryRecord) → Tables → Sequences → Type 0
  Changes m f t s =
      (t' : Tables) × (m (world t s []) ≡ (ok tt, world t' s []))
      × (t'.deliveries ≡ map f t.deliveries)
      × ((e x : DeliveryRecord)
          → changed encode opts sink now t'.events e x ≡ changed encode opts sink now t.events e x)

  unfoldable pub at_row :
      DeliveryRecord → (DeliveryRecord → DeliveryRecord) → DeliveryRecord → DeliveryRecord
  at_row d f x = if x.id == d.id then f x else x

  module _ (d : DeliveryRecord) (t : Tables) (s : Sequences) where
    refused-Changes :
        (ev : Event) (text : Bytes) (b : Bool)
        → Changes
            (if b
              then mark_dead d.id text now >> update_event_status ev.event_id event_dead_letter
              else mark_failed d.id
                  (suc d.attempts)
                  text
                  (add_time now (backoff opts.base_delay (suc d.attempts))))
            (at_row d (refused encode opts sink now d text b))
            t
            s
    unfolding Changes at_row mark_failed mark_dead update_event_status update statement ◌>>=◌
    refused-Changes ev text true = (
      _,
      refl,
      refl,
      λ e x. changed-status encode opts sink now ev.event_id event_dead_letter e x t.events,
    )
    refused-Changes ev text false = (_, refl, refl, λ e x. refl)

    answered-Changes :
        (ev : Event) (o : Option Bytes)
        → Changes
            (after_dispatch marshal_all sink opts d ev now o)
            (at_row d (answered encode opts sink now d o))
            t
            s
    unfolding Changes at_row mark_delivered update_event_status update statement ◌>>=◌
        handle_failure
    answered-Changes ev none = (
      _,
      refl,
      refl,
      λ e x. changed-status encode opts sink now ev.event_id event_dispatched e x t.events,
    )
    answered-Changes ev (some text) =
        refused-Changes ev text (leb_ℤ opts.max_attempt (pos (suc d.attempts)))

    tried-Changes :
        (o : Option Event)
        → Changes
            (dispatch_event marshal_all sink opts d now o)
            (at_row d (tried encode opts sink now d o))
            t
            s
    unfolding Changes at_row mark_dead update statement
    tried-Changes none = (_, refl, refl, λ e x. refl)
    tried-Changes (some ev) = answered-Changes ev (sink d.id d.topic (encode (payload_of ev d)))

    dispatch_one-Changes :
        Changes
          (dispatch_one marshal_all sink opts now d)
          (at_row d (changed encode opts sink now t.events d))
          t
          s
    unfolding Changes dispatch_one get_event query statement ◌>>=◌ changed
    dispatch_one-Changes = tried-Changes (find (λ e. eqb e.event_id d.event_id) t.events)

  -- what the dispatch of a list of deliveries makes of a row
  unfoldable pub run_row : List Event → List DeliveryRecord → DeliveryRecord → DeliveryRecord
  run_row es [] x = x
  run_row es (d ∷ ds) x = run_row es ds (at_row d (changed encode opts sink now es d) x)

  run_row-status :
      (es es' : List Event) (ds : List DeliveryRecord) (x : DeliveryRecord)
      → ((e y : DeliveryRecord)
          → changed encode opts sink now es' e y ≡ changed encode opts sink now es e y)
      → run_row es' ds x ≡ run_row es ds x
  unfolding run_row at_row
  run_row-status es es' [] x h = refl
  run_row-status es es' (d ∷ ds) x h =
      rw (h d x) (run_row-status es es' ds (at_row d (changed encode opts sink now es d) x) h)

  pub dispatch_all-Changes :
      (ds : List DeliveryRecord) (t : Tables) (s : Sequences)
      → Changes (dispatch_all marshal_all sink opts now ds) (run_row t.events ds) t s
  unfolding Changes dispatch_all run_row ◌>>=◌ pure
  dispatch_all-Changes [] t s = (t, refl, sym (map_id t.deliveries), λ e x. refl)
  dispatch_all-Changes (d ∷ ds) t s =
      let (u, ran, rows, same) = dispatch_one-Changes d t s in
      let (v, ran', rows', same') = dispatch_all-Changes ds u s in
      (
        v,
        ap (continue (λ _. dispatch_all marshal_all sink opts now ds)) ran ∙ ran',
        rows'
            ∙ ap (map (run_row u.events ds)) rows
            ∙ map-map (run_row u.events ds) _ _ t.deliveries
                (λ x. run_row-status t.events u.events ds _ same),
        λ e x. same' e x ∙ same e x,
      )
