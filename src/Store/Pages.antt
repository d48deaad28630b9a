-- ===== src/Store/Pages.antt =====
-- internal/store/pg_event.go: the pages of a listing of events, one after the other.
use mathlib.Core.List.{Perm, Pairwise}
use mathlib.Core.List.Pairwise
use device_telemetry_ro.Prelude.{
  ltb, if◌then◌else◌, length, take, drop, keep, take_all, ℕ, zero, suc, ◌+◌, ◌-◌, ◌*◌, ◌%◌, ◌≤◌,
  ◌<◌, ◌≡◌, refl, sym, ap, subst, ◌∙◌, ◌≢◌, Bool, List, [], ◌∷◌, ◌++◌, arith,
}
use device_telemetry_ro.Prelude.Int.{ℤ, pos, pos_part, ltb_ℤ, two_63, two_64, from_bits}
use device_telemetry_ro.Prelude.Sort.{sort_by, sort_by-perm, length-sort_by, sort_by_congr}
use device_telemetry_ro.Domain.{Event}
use device_telemetry_ro.Domain.Errors.{Result, ok, err}
use device_telemetry_ro.External.{External}
use device_telemetry_ro.Db.{◌>>=◌, Tables, Sequences, World, world, pure, statement, query}
use device_telemetry_ro.Store.Listing.{
  EventFilter, passes_filter, page_of, size_of, offset_of, goes_first, filtered, page_rows,
  or_refused, query_events,
}

abbrev numbered : EventFilter → ℕ → EventFilter
numbered f p = record f { page = pos (suc p) }

abbrev items_of : Result (List Event × ℕ) → List Event
items_of (ok (items, total)) = items
items_of (err e) = []

-- the items of the first `k` pages
unfoldable pub first_pages : External → EventFilter → ℕ → World → List Event
first_pages ext f zero w = []
first_pages ext f (suc k) w =
    first_pages ext f k w ++ items_of (query_events ext (numbered f k) w).0

take_to {ℓ} : {A : Type ℓ} (m n : ℕ) (l : List A) → m ≡ n → take m l ≡ take n l
take_to m n l e = ap (λ k. take k l) e

take-drop {ℓ} : {A : Type ℓ} (a b : ℕ) (l : List A) → take a l ++ take b (drop a l) ≡ take (a + b) l
take-drop zero b l = take_to b (0 + b) l (omega arith)
take-drop (suc a) zero [] = take_to (suc a) (suc a + 0) [] (omega arith)
take-drop (suc a) (suc b) [] = take_to (suc (a + suc b)) (suc a + suc b) [] (omega arith)
take-drop (suc a) b (x ∷ xs) =
    ap (λ l. x ∷ l) (take-drop a b xs) ∙ take_to (suc (a + b)) (suc a + b) (x ∷ xs) (omega arith)

small_offset : (n : ℕ) → n < two_63 → from_bits (n % two_64) ≡ pos n
small_offset n h = ground arith

paged :
    (sz o : ℤ) (n : ℕ) (rows : List Event) (total : ℕ) (w : World)
    → o ≡ pos n
    → items_of ((or_refused (page_rows sz o rows) >>= λ items. pure (items, total)) w).0
      ≡ take (pos_part sz) (drop n rows)
unfolding ◌>>=◌ pure
paged sz o n rows total w e =
    subst
      (λ z.
        items_of ((or_refused (page_rows sz z rows) >>= λ items. pure (items, total)) w).0
        ≡ take (pos_part sz) (drop n rows))
      (sym e) refl

-- the events of a listing, the newest first
abbrev newer_event : Event → Event → Bool
newer_event a b = ltb b.ts a.ts

-- No two events of the list have one time.
abbrev pub DistinctTimes : List Event → Type 0
DistinctTimes = Pairwise (λ a b. a.ts ≢ b.ts)

-- Ties do not matter where there are none.
no_ties :
    (tie : Event → Event → Bool) (l : List Event)
    → DistinctTimes l
    → sort_by (goes_first tie) l ≡ sort_by newer_event l
no_ties tie l d =
    sort_by_congr (goes_first tie) newer_event l (Pairwise.imp (λ a b n. untied a b n) d)
  where
    untied : (a b : Event) → a.ts ≢ b.ts → goes_first tie b a ≡ newer_event b a
    untied a b n = ground arith

module _ (ext : External) (f : EventFilter) (size : ℕ) (is_size : f.size ≡ pos size)
    (one : 1 ≤ size) where
  at_least : (n : ℕ) (d : ℤ) → 1 ≤ n → (if ltb_ℤ (pos n) (pos 1) then d else pos n) ≡ pos n
  at_least n d h = ground arith

  own_size : size_of f ≡ pos size
  unfolding size_of
  own_size = rw is_size (at_least size (pos 20) one)

  own_page : (p : ℕ) → page_of (numbered f p) ≡ pos (suc p)
  unfolding page_of
  own_page p = at_least (suc p) (pos 1) (omega arith)

  before_page : (p : ℕ) → (suc p - 1) * size ≡ p * size
  before_page p = ap (λ n. n * size) (less_one p)
    where
      less_one : (p : ℕ) → suc p - 1 ≡ p
      less_one p = omega arith

  offset-numbered : (p : ℕ) → p * size < two_63 → offset_of (numbered f p) ≡ pos (p * size)
  unfolding offset_of size_of
  offset-numbered p h =
      ap (λ z. from_bits (((pos_part z - 1) * pos_part (size_of f)) % two_64)) (own_page p)
      ∙ ap (λ z. from_bits (((suc p - 1) * pos_part z) % two_64)) own_size
      ∙ ap (λ n. from_bits (n % two_64)) (before_page p)
      ∙ small_offset (p * size) h

  module _ (t : Tables) (s : Sequences) where
    abbrev ranked : List Event
    ranked = sort_by newer_event (keep (passes_filter f) t.events)

    page_items :
        (p : ℕ)
        → DistinctTimes (keep (passes_filter f) t.events)
        → p * size < two_63
        → items_of (query_events ext (numbered f p) (world t s [])).0
          ≡ take size (drop (p * size) ranked)
    unfolding query_events query statement ◌>>=◌ pure filtered passes_filter size_of
    page_items p d h =
        paged (size_of (numbered f p)) (offset_of (numbered f p)) (p * size)
          (filtered ext (numbered f p) t.events)
          (length (keep (passes_filter (numbered f p)) t.events)) (world t s [])
          (offset-numbered p h)
        ∙ ap (λ l. take (pos_part (size_of f)) (drop (p * size) l)) (no_ties _ _ d)
        ∙ ap (λ z. take (pos_part z) (drop (p * size) ranked)) own_size

    pages-take :
        (k : ℕ)
        → DistinctTimes (keep (passes_filter f) t.events)
        → k * size < two_63
        → first_pages ext f k (world t s []) ≡ take (k * size) ranked
    unfolding first_pages
    pages-take zero d h = take_to 0 (0 * size) ranked (omega arith)
    pages-take (suc k) d h =
        ap (λ l. l ++ items_of (query_events ext (numbered f k) (world t s [])).0)
          (pages-take k d (smaller_product k h))
        ∙ ap (λ l. take (k * size) ranked ++ l) (page_items k d (smaller_product k h))
        ∙ take-drop (k * size) size ranked
        ∙ take_to (k * size + size) (suc k * size) ranked (sym (next_product k))
      where
        next_product : (k : ℕ) → suc k * size ≡ k * size + size
        next_product k = omega arith

        smaller_product : (k : ℕ) → suc k * size < two_63 → k * size < two_63
        smaller_product k h = let e = next_product k in omega (arith, e)

    -- The first `k` pages of a listing of events, of a size of at least one and with offsets below
    -- 2 ^ 63, hold every event that passes the filter once, and no other, if they have room for all and
    -- no two of these events have one time, whatever order PostgreSQL gives to ties: on a database that
    -- answers and whose tables do not change from one page to the next.
    pub first_pages-perm :
        (k : ℕ)
        → DistinctTimes (keep (passes_filter f) t.events)
        → k * size < two_63
        → length (keep (passes_filter f) t.events) ≤ k * size
        → Perm (first_pages ext f k (world t s [])) (keep (passes_filter f) t.events)
    unfolding filtered
    first_pages-perm k d h l =
        let listed = keep (passes_filter f) t.events in
        subst (λ z. Perm z listed)
          (sym (
            pages-take k d h
            ∙ take_all (k * size) ranked
                (subst (λ n. n ≤ k * size) (sym (length-sort_by newer_event listed)) l)))
          (sort_by-perm newer_event listed)
