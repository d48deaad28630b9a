-- ===== src/Worker/Passes.antt =====
-- internal/worker/worker.go: the table of deliveries after a pass, on a database that answers.
use device_telemetry_ro.Prelude.{
  ◌==◌, if◌then◌else◌, Bool-cases, length, take, keep, take_all, All, ℕ, ◌≤◌, ◌≡◌, refl, sym, ap,
  subst, ◌∙◌, inl, inr, Bool, true, false, List, [], ◌∷◌, map, arith,
}
use device_telemetry_ro.Prelude.Int.{pos, pos_part, leb_ℤ}
use device_telemetry_ro.Prelude.Bytes.{Bytes}
use device_telemetry_ro.Prelude.Keep.{keep-cons_true, keep-cons_false}
use device_telemetry_ro.Domain.{Time, Event, DeliveryRecord}
use device_telemetry_ro.Domain.Errors.{ok}
use device_telemetry_ro.Db.{◌>>=◌, Tables, Sequences, world, statement, query}
use device_telemetry_ro.Store.Deliveries.{is_due, sort_due, list_due_deliveries}
use device_telemetry_ro.Worker.{Options, DispatchPayload, process_once}
use device_telemetry_ro.Worker.Pass.{Sink, changed, pass_step, changed-id}
use device_telemetry_ro.Worker.Rows.{Changes, at_row, run_row, dispatch_all-Changes}
use device_telemetry_ro.Worker.Due.{
  UniqueIds, keep_swap, length-keep, keep-sort_due, length-sort_due,
}

-- the rows that LIMIT admits
unfoldable pub batch : Options → ℕ
batch opts = if leb_ℤ opts.batch_size (pos 0) then 100 else pos_part opts.batch_size

pub map-congr {ℓ κ} :
    {A : Type ℓ} {P : A → Type κ} (f g : A → A) (l : List A)
    → ((x : A) → P x → f x ≡ g x)
    → All P l
    → map f l ≡ map g l
map-congr f g [] h a = refl
map-congr f g (x ∷ xs) h (p, a) = rw (h x p) (ap (λ l. g x ∷ l) (map-congr f g xs h a))

module _ (encode : DispatchPayload → Bytes) (opts : Options) (sink : Sink) (now : Time) where
  at_row-id :
      (es : List Event) (d x : DeliveryRecord)
      → (at_row encode opts sink now d (changed encode opts sink now es d) x).id ≡ x.id
  unfolding at_row
  at_row-id es d x = chosen (x.id == d.id)
    where
      chosen : (b : Bool) → (if b then changed encode opts sink now es d x else x).id ≡ x.id
      chosen true = changed-id encode opts sink now es d x
      chosen false = refl

  at_row-other :
      (f : DeliveryRecord → DeliveryRecord) (d x : DeliveryRecord) (n : ℕ)
      → x.id ≡ n
      → d.id == n ≡ false
      → at_row encode opts sink now d f x ≡ x
  unfolding at_row
  at_row-other f d x n e b = chosen (x.id == d.id) refl
    where
      chosen : (c : Bool) → x.id == d.id ≡ c → (if c then f x else x) ≡ x
      chosen true h = absurd (apart h)
        where
          apart : x.id == d.id ≡ true → ⊥
          apart h = ground arith
      chosen false h = refl

  pub run_row-other :
      (es : List Event) (ds : List DeliveryRecord) (x : DeliveryRecord) (n : ℕ)
      → x.id ≡ n
      → run_row encode opts sink now es ds x
        ≡ run_row encode opts sink now es (keep (λ d. d.id == n) ds) x
  unfolding run_row at_row
  run_row-other es [] x n e = refl
  run_row-other es (d ∷ ds) x n e = elim (Bool-cases (d.id == n)) [
    | inl b ↦
        run_row-other es ds (at_row encode opts sink now d (changed encode opts sink now es d) x) n
          (at_row-id es d x ∙ e)
        ∙ ap (λ l. run_row encode opts sink now es l x)
            (sym (keep-cons_true (λ d. d.id == n) d ds b))
    | inr b ↦
        ap (run_row encode opts sink now es ds)
          (at_row-other (changed encode opts sink now es d) d x n e b)
        ∙ run_row-other es ds x n e
        ∙ ap (λ l. run_row encode opts sink now es l x)
            (sym (keep-cons_false (λ d. d.id == n) d ds b))
  ]

  at_row_self :
      (f : DeliveryRecord → DeliveryRecord) (x : DeliveryRecord)
      → at_row encode opts sink now x f x ≡ f x
  unfolding at_row
  at_row_self f x = chosen (x.id == x.id) refl
    where
      chosen : (c : Bool) → x.id == x.id ≡ c → (if c then f x else x) ≡ f x
      chosen true h = refl
      chosen false h = absurd (same h)
        where
          same : x.id == x.id ≡ false → ⊥
          same h = ground arith

  unfoldable pub due_rows : List DeliveryRecord → List DeliveryRecord
  due_rows ds = take (batch opts) (sort_due (keep (is_due now) ds))

  -- The deliveries of the pass with the id of `x` are `x` alone, if it is due, and else none.
  due_rows-same :
      (ds : List DeliveryRecord) (x : DeliveryRecord)
      → length ds ≤ batch opts
      → keep (λ d. d.id == x.id) ds ≡ x ∷ []
      → keep (λ d. d.id == x.id) (due_rows ds) ≡ keep (is_due now) (x ∷ [])
  unfolding due_rows
  due_rows-same ds x h u =
      let due = keep (is_due now) ds in
      let k : keep (λ d. d.id == x.id) due ≡ keep (is_due now) (x ∷ []) =
        keep_swap (λ d. d.id == x.id) (is_due now) ds ∙ ap (keep (is_due now)) u in
      ap (keep (λ d. d.id == x.id)) (
        take_all (batch opts) (sort_due due)
          (omega (arith, length-sort_due due, length-keep (is_due now) ds)))
      ∙ keep-sort_due (λ d. d.id == x.id) due
          (subst (λ l. length l ≤ 1) (sym k) (length-keep (is_due now) (x ∷ [])))
      ∙ k

  pub run_row-one :
      (es : List Event) (x : DeliveryRecord) (b : Bool)
      → is_due now x ≡ b
      → run_row encode opts sink now es (keep (is_due now) (x ∷ [])) x
        ≡ pass_step encode opts sink now es x
  unfolding run_row pass_step
  run_row-one es x true e = rw e (at_row_self (changed encode opts sink now es x) x)
  run_row-one es x false e = rw e refl

  row_step :
      (es : List Event) (ds : List DeliveryRecord) (x : DeliveryRecord)
      → length ds ≤ batch opts
      → keep (λ d. d.id == x.id) ds ≡ x ∷ []
      → run_row encode opts sink now es (due_rows ds) x ≡ pass_step encode opts sink now es x
  row_step es ds x h u =
      run_row-other es (due_rows ds) x x.id refl
      ∙ ap (λ l. run_row encode opts sink now es l x) (due_rows-same ds x h u)
      ∙ run_row-one es x (is_due now x) refl

  -- A pass dispatches the rows of its query.
  pub process_once-rows :
      (t : Tables) (s : Sequences)
      → (t' : Tables) × (process_once (λ p. ok (encode p)) sink opts now (world t s [])
          ≡ (ok tt, world t' s []))
        × (t'.deliveries
            ≡ map (run_row encode opts sink now t.events (due_rows t.deliveries)) t.deliveries)
  unfolding process_once list_due_deliveries query statement ◌>>=◌ Changes due_rows batch
  process_once-rows t s =
      let (t', ran, rows, _) =
        dispatch_all-Changes encode opts sink now (due_rows t.deliveries) t s in
      (t', ran, rows)

  -- If the batch admits every row, a pass makes `pass_step` of each.
  pub process_once-pass_step :
      (t : Tables) (s : Sequences)
      → UniqueIds t.deliveries
      → length t.deliveries ≤ batch opts
      → (t' : Tables) × (process_once (λ p. ok (encode p)) sink opts now (world t s [])
          ≡ (ok tt, world t' s []))
        × (t'.deliveries ≡ map (pass_step encode opts sink now t.events) t.deliveries)
  unfolding UniqueIds
  process_once-pass_step t s u h =
      let (t', ran, rows) = process_once-rows t s in
      (
        t',
        ran,
        rows
            ∙ map-congr (run_row encode opts sink now t.events (due_rows t.deliveries))
                (pass_step encode opts sink now t.events) t.deliveries
                (λ x e. row_step t.events t.deliveries x h e) u,
      )
