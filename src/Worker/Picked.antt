-- ===== src/Worker/Picked.antt =====
-- internal/worker/worker.go: the deliveries that a pass picks, and the table after it.
use mathlib.Core.List.{
  mem-append_left, mem-append_right, Mem, Perm, Pairwise, Pairwise-append, not-mem-nil,
  mem-cons_self, mem-cons_of_mem, forall_mem-cons,
}
use mathlib.Core.List.Perm
use mathlib.Core.Bool.{Bool-set}
use device_telemetry_ro.Prelude.{
  ltb, leb, ◌==◌, if◌then◌else◌, Bool-cases, length, take, drop, keep, any, length-append, All, ℕ,
  zero, suc, ◌≤◌, ◌≡◌, refl, sym, ap, subst, ◌∙◌, ◌⊎◌, inl, inr, Bool, true, false, ◌&&◌, ◌||◌,
  none, some, List, [], ◌∷◌, ◌++◌, map, arith,
}
use device_telemetry_ro.Prelude.Bytes.{Bytes}
use device_telemetry_ro.Prelude.Keep.{keep-cons_true, keep-cons_false, mem-keep→}
use device_telemetry_ro.Domain.{Time, Event, DeliveryRecord}
use device_telemetry_ro.Domain.Errors.{ok}
use device_telemetry_ro.Db.{Tables, Sequences, world}
use device_telemetry_ro.Store.Deliveries.{is_due, earlier, insert_due, sort_due}
use device_telemetry_ro.Worker.{Options, DispatchPayload, process_once}
use device_telemetry_ro.Worker.Pass.{Sink, pass_step}
use device_telemetry_ro.Worker.Rows.{run_row}
use device_telemetry_ro.Worker.Due.{UniqueIds, keep_swap, length-keep, none_left, keep-sort_due}
use device_telemetry_ro.Worker.Passes.{
  batch, map-congr, run_row-other, due_rows, run_row-one, process_once-rows,
}

-- The next try of the first is before that of the second, or at the same time with an id no greater.
unfoldable pub no_later : DeliveryRecord → DeliveryRecord → Bool
no_later x y = elim x.next_retry_at [
  | none ↦ false
  | some a ↦ elim y.next_retry_at [ none ↦ false | some b ↦ ltb a b || a == b && leb x.id y.id ]
]

earlier-no_later :
    (now : Time) (x y : DeliveryRecord)
    → is_due now x ≡ true
    → is_due now y ≡ true
    → earlier x y ≡ true
    → no_later x y ≡ true
unfolding is_due earlier no_later
earlier-no_later now x y p q h = ground arith

earlier_total : (x y : DeliveryRecord) → earlier x y ≡ false → earlier y x ≡ true
unfolding earlier
earlier_total x y h = ground arith

earlier_trans :
    (x y z : DeliveryRecord) → earlier x y ≡ true → earlier y z ≡ true → earlier x z ≡ true
unfolding earlier
earlier_trans x y z p q = ground arith

insert_due-perm : (d : DeliveryRecord) (l : List DeliveryRecord) → Perm (insert_due d l) (d ∷ l)
unfolding insert_due
insert_due-perm d [] = Perm.refl (d ∷ [])
insert_due-perm d (x ∷ xs) = elim (Bool-cases (earlier x d)) [
  | inl e ↦ rw e (Perm.trans (Perm.cons x (insert_due-perm d xs)) (Perm.swap d x xs))
  | inr e ↦ rw e (Perm.refl (d ∷ x ∷ xs))
]

sort_due-perm : (l : List DeliveryRecord) → Perm (sort_due l) l
unfolding sort_due
sort_due-perm [] = Perm.refl []
sort_due-perm (x ∷ xs) =
    Perm.trans (insert_due-perm x (sort_due xs)) (Perm.cons x (sort_due-perm xs))

abbrev IsSorted : List DeliveryRecord → Type 0
IsSorted = Pairwise (λ a b. earlier a b ≡ true)

before-all :
    (a b : DeliveryRecord) {l : List DeliveryRecord}
    → earlier a b ≡ true
    → ((x : DeliveryRecord) → Mem x l → earlier a x ≡ true)
    → (x : DeliveryRecord) → Mem x (b ∷ l)
    → earlier a x ≡ true
before-all a b p h = (forall_mem-cons (λ x. Bool-set (earlier a x) true)).1 (p, h)

insert_due-IsSorted :
    (d : DeliveryRecord) (l : List DeliveryRecord) → IsSorted l → IsSorted (insert_due d l)
unfolding insert_due
insert_due-IsSorted d [] s = Pairwise.cons (λ x m. absurd (not-mem-nil m)) Pairwise.nil
insert_due-IsSorted d (x ∷ xs) (Pairwise.cons h s) = elim (Bool-cases (earlier x d)) [
  | inl e ↦ rw e (
      Pairwise.cons (λ y m. before-all x d e h y ((Perm.mem_iff (insert_due-perm d xs)).0 m))
        (insert_due-IsSorted d xs s))
  | inr e ↦
      let f = earlier_total x d e in
      rw e (
        Pairwise.cons (before-all d x f (λ y m. earlier_trans d x y f (h y m))) (Pairwise.cons h s))
]

sort_due-IsSorted : (l : List DeliveryRecord) → IsSorted (sort_due l)
unfolding sort_due
sort_due-IsSorted [] = Pairwise.nil
sort_due-IsSorted (x ∷ xs) = insert_due-IsSorted x (sort_due xs) (sort_due-IsSorted xs)

module _ {ℓ} {A : Type ℓ} where
  take_then_drop : (n : ℕ) (l : List A) → take n l ++ drop n l ≡ l
  take_then_drop zero l = refl
  take_then_drop (suc n) [] = refl
  take_then_drop (suc n) (x ∷ xs) = ap (λ l. x ∷ l) (take_then_drop n xs)

  length-take_most : (n : ℕ) (l : List A) → length (take n l) ≤ n
  length-take_most zero l = omega arith
  length-take_most (suc n) [] = omega arith
  length-take_most (suc n) (x ∷ xs) = omega (arith, length-take_most n xs)

  take_full : (n : ℕ) (l : List A) → (drop n l ≡ []) ⊎ (length (take n l) ≡ n)
  take_full zero l = inr refl
  take_full (suc n) [] = inl refl
  take_full (suc n) (x ∷ xs) = elim (take_full n xs) [ inl e ↦ inl e | inr e ↦ inr (ap suc e) ]

  All-mem {κ} : (P : A → Type κ) (l : List A) → ((x : A) → Mem x l → P x) → All P l
  All-mem P [] h = tt
  All-mem P (x ∷ xs) h = (h x mem-cons_self, All-mem P xs (λ y m. h y (mem-cons_of_mem x m)))

  keep-append : (p : A → Bool) (k l : List A) → keep p (k ++ l) ≡ keep p k ++ keep p l
  keep-append p [] l = refl
  keep-append p (x ∷ k) l = elim (Bool-cases (p x)) [
    | inl e ↦ rw e (ap (λ l. x ∷ l) (keep-append p k l))
    | inr e ↦ rw e (keep-append p k l)
  ]

  abbrev is_some : List A → Bool
  is_some [] = false
  is_some (x ∷ xs) = true

  any-keep : (p : A → Bool) (l : List A) → any p l ≡ is_some (keep p l)
  any-keep p [] = refl
  any-keep p (x ∷ xs) = elim (Bool-cases (p x)) [ inl e ↦ rw e refl | inr e ↦ rw e (any-keep p xs) ]

  append_empty : (k : List A) → k ++ [] ≡ k
  append_empty [] = refl
  append_empty (x ∷ k) = ap (λ l. x ∷ l) (append_empty k)

  -- A front part of a list of at most one element is empty or the whole.
  front_part : (k l m : List A) → k ++ l ≡ m → length m ≤ 1 → (k ≡ []) ⊎ (k ≡ m)
  front_part [] l m e h = inl refl
  front_part (x ∷ k) l m e h =
      let n : length ((x ∷ k) ++ l) ≤ 1 = subst (λ z. length z ≤ 1) (sym e) h in
      let z : length l ≡ 0 = omega (arith, length-append (x ∷ k) l) in
      inr (sym (append_empty (x ∷ k)) ∙ ap (λ t. (x ∷ k) ++ t) (sym (none_left l z)) ∙ e)

-- A pass that picks the deliveries `picked` and leaves those of `left` for later. Together they are
-- those that are due; no more are picked than the batch has room for, and none is left if there
-- is room; none that is left has a next try before one that is picked. Those that are picked make the
-- step of `pass_step`, and every other row stays as it was.
pub record IsPass (size : ℕ) (due : DeliveryRecord → Bool) (step : DeliveryRecord → DeliveryRecord)
    (before after : List DeliveryRecord) : Type 0 where
  pub picked : List DeliveryRecord
  pub left : List DeliveryRecord
  pub all_due : Perm (picked ++ left) (keep due before)
  pub room : length picked ≤ size
  pub full : (left ≡ []) ⊎ (length picked ≡ size)
  pub oldest : All (λ x. All (λ y. no_later x y ≡ true) left) picked
  pub rows : after ≡ map (λ x. if any (λ d. d.id == x.id) picked then step x else x) before

module _ (encode : DispatchPayload → Bytes) (opts : Options) (sink : Sink) (now : Time) where
  abbrev due_of : List DeliveryRecord → List DeliveryRecord
  due_of ds = keep (is_due now) ds

  abbrev rest_of : List DeliveryRecord → List DeliveryRecord
  rest_of ds = drop (batch opts) (sort_due (due_of ds))

  abbrev picked_of : List DeliveryRecord → List DeliveryRecord
  picked_of = due_rows encode opts sink now

  parts : (ds : List DeliveryRecord) → picked_of ds ++ rest_of ds ≡ sort_due (due_of ds)
  unfolding due_rows
  parts ds = take_then_drop (batch opts) (sort_due (due_of ds))

  parts-perm : (ds : List DeliveryRecord) → Perm (picked_of ds ++ rest_of ds) (due_of ds)
  parts-perm ds = subst (λ l. Perm l (due_of ds)) (sym (parts ds)) (sort_due-perm (due_of ds))

  part-due :
      (ds : List DeliveryRecord) (x : DeliveryRecord)
      → Mem x (picked_of ds ++ rest_of ds)
      → is_due now x ≡ true
  part-due ds x m = (mem-keep→ (is_due now) x ds ((Perm.mem_iff (parts-perm ds)).0 m)).1

  picked-oldest :
      (ds : List DeliveryRecord)
      → All (λ x. All (λ y. no_later x y ≡ true) (rest_of ds)) (picked_of ds)
  picked-oldest ds =
      let sorted : IsSorted (picked_of ds ++ rest_of ds) =
        subst IsSorted (sym (parts ds)) (sort_due-IsSorted (due_of ds)) in
      let across = ((Pairwise-append (λ a b. Bool-set (earlier a b) true)).0 sorted).2 in
      All-mem _ (picked_of ds) λ x m. All-mem _ (rest_of ds) λ y k.
        earlier-no_later now x y (part-due ds x (mem-append_left (rest_of ds) m))
          (part-due ds y (mem-append_right (picked_of ds) k)) (across x m y k)

  same_id :
      (ds : List DeliveryRecord) (x : DeliveryRecord)
      → keep (λ d. d.id == x.id) ds ≡ x ∷ []
      → keep (λ d. d.id == x.id) (picked_of ds) ++ keep (λ d. d.id == x.id) (rest_of ds)
        ≡ keep (is_due now) (x ∷ [])
  same_id ds x u =
      let k : keep (λ d. d.id == x.id) (due_of ds) ≡ keep (is_due now) (x ∷ []) =
        keep_swap (λ d. d.id == x.id) (is_due now) ds ∙ ap (keep (is_due now)) u in
      sym (keep-append (λ d. d.id == x.id) (picked_of ds) (rest_of ds))
      ∙ ap (keep (λ d. d.id == x.id)) (parts ds)
      ∙ keep-sort_due (λ d. d.id == x.id) (due_of ds)
          (subst (λ l. length l ≤ 1) (sym k) (length-keep (is_due now) (x ∷ [])))
      ∙ k

  abbrev stepped : List Event → DeliveryRecord → Bool → DeliveryRecord
  stepped es x b = if b then pass_step encode opts sink now es x else x

  by_id :
      (es : List Event) (ds k : List DeliveryRecord) (x : DeliveryRecord)
      → keep (λ d. d.id == x.id) ds ≡ k
      → run_row encode opts sink now es k x ≡ stepped es x (is_some k)
      → run_row encode opts sink now es ds x ≡ stepped es x (any (λ d. d.id == x.id) ds)
  by_id es ds k x e r =
      run_row-other encode opts sink now es ds x x.id refl
      ∙ ap (λ l. run_row encode opts sink now es l x) e
      ∙ r
      ∙ ap (stepped es x) (sym (any-keep (λ d. d.id == x.id) ds ∙ ap is_some e))

  own_row :
      (es : List Event) (x : DeliveryRecord) (b : Bool)
      → is_due now x ≡ b
      → run_row encode opts sink now es (keep (is_due now) (x ∷ [])) x
        ≡ stepped es x (is_some (keep (is_due now) (x ∷ [])))
  unfolding run_row
  own_row es x true e =
      run_row-one encode opts sink now es x true e
      ∙ sym (ap (λ l. stepped es x (is_some l)) (keep-cons_true (is_due now) x [] e))
  own_row es x false e =
      ap (λ l. run_row encode opts sink now es l x) (keep-cons_false (is_due now) x [] e)
      ∙ sym (ap (λ l. stepped es x (is_some l)) (keep-cons_false (is_due now) x [] e))

  -- What the dispatch of some deliveries makes of a row, when those with its id are none or the row.
  run_row-when :
      (es : List Event) (ds : List DeliveryRecord) (x : DeliveryRecord)
      → (keep (λ d. d.id == x.id) ds ≡ [])
        ⊎ (keep (λ d. d.id == x.id) ds ≡ keep (is_due now) (x ∷ []))
      → run_row encode opts sink now es ds x
        ≡ (if any (λ d. d.id == x.id) ds then pass_step encode opts sink now es x else x)
  unfolding run_row
  run_row-when es ds x (inl e) = by_id es ds [] x e refl
  run_row-when es ds x (inr e) =
      by_id es ds (keep (is_due now) (x ∷ [])) x e (own_row es x (is_due now x) refl)

  picked-row :
      (es : List Event) (ds : List DeliveryRecord) (x : DeliveryRecord)
      → keep (λ d. d.id == x.id) ds ≡ x ∷ []
      → run_row encode opts sink now es (picked_of ds) x ≡ (
          if any (λ d. d.id == x.id) (picked_of ds) then pass_step encode opts sink now es x else x)
  picked-row es ds x u =
      run_row-when es (picked_of ds) x
        (front_part _ _ _ (same_id ds x u) (length-keep (is_due now) (x ∷ [])))

  -- A pass of the worker, on a database that answers and for payloads that json.Marshal accepts, gives
  -- no error. It picks the due deliveries with the oldest next tries, as many as the batch has room
  -- for: each of these is then dispatched, dead, or failed with one attempt more and its next retry,
  -- and every other row is as it was. No two rows share an id.
  pub process_once-IsPass :
      (t : Tables) (s : Sequences)
      → UniqueIds t.deliveries
      → (t' : Tables) × (process_once (λ p. ok (encode p)) sink opts now (world t s [])
          ≡ (ok tt, world t' s []))
        × IsPass
            (batch opts)
            (is_due now)
            (pass_step encode opts sink now t.events)
            t.deliveries
            t'.deliveries
  unfolding UniqueIds due_rows
  process_once-IsPass t s u =
      let (t', ran, rows) = process_once-rows encode opts sink now t s in
      (
        t',
        ran,
        record {
          picked = picked_of t.deliveries;
          left = rest_of t.deliveries;
          all_due = parts-perm t.deliveries;
          room = length-take_most (batch opts) (sort_due (due_of t.deliveries));
          full = take_full (batch opts) (sort_due (due_of t.deliveries));
          oldest = picked-oldest t.deliveries;
          rows = rows ∙ map-congr _ _ t.deliveries (λ x e. picked-row t.events t.deliveries x e) u;
        },
      )
