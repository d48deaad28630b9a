-- ===== src/Metrics/Order.antt =====
-- internal/metrics/metrics.go: the order of the names in the text of `Handler`.
use mathlib.Core.Path.{ap₂}
use mathlib.Core.List.{Perm, foldr}
use mathlib.Core.List.Perm
use device_telemetry_ro.Prelude.{
  Bool-cases, ◌≡◌, refl, sym, ap, ◌∙◌, inl, inr, Bool, true, false, not, List, [], ◌∷◌, ◌++◌, arith,
}
use device_telemetry_ro.Prelude.Bytes.{
  Bytes, ltb_bytes, ltb_bytes_connex, ltb_bytes_asymm, ltb_bytes_not_trans,
}
use device_telemetry_ro.Prelude.Sort.{insert_by, sort_by}
use device_telemetry_ro.External.{External}
use device_telemetry_ro.Metrics.{Registry}
use device_telemetry_ro.Metrics.Render.{render_all, keys, sort_strings, metrics_text}

-- `x` goes before `a` unless `a` is less.
abbrev comes_first : Bytes → Bytes → Bool
comes_first x a = not (ltb_bytes a x)

comes_first_trans :
    (a x b : Bytes) → comes_first x a ≡ false → comes_first x b ≡ true → comes_first a b ≡ true
comes_first_trans a x b p q = ground (arith, ltb_bytes_asymm a x, ltb_bytes_not_trans b x a)

abbrev insert : Bytes → List Bytes → List Bytes
insert = insert_by comes_first

insert_past :
    (a x : Bytes) (l : List Bytes) → comes_first x a ≡ true → insert a (x ∷ l) ≡ x ∷ insert a l
unfolding insert_by
insert_past a x l h = rw h refl

insert_here :
    (a x : Bytes) (l : List Bytes) → comes_first x a ≡ false → insert a (x ∷ l) ≡ a ∷ x ∷ l
unfolding insert_by
insert_here a x l h = rw h refl

-- one of the two names goes before the head, and the other after it
insert_around :
    (a b x : Bytes) (l : List Bytes)
    → comes_first x a ≡ false
    → comes_first x b ≡ true
    → insert a (insert b (x ∷ l)) ≡ insert b (insert a (x ∷ l))
insert_around a b x l p q =
    (ap (insert a) (insert_past b x l q) ∙ insert_here a x (insert b l) p)
    ∙ sym (
        ap (insert b) (insert_here a x l p)
        ∙ insert_past b a (x ∷ l) (comes_first_trans a x b p q)
        ∙ ap (λ k. a ∷ k) (insert_past b x l q))

-- Two names that both go before a list: the lesser goes first, whichever is inserted first.
insert_front :
    (a b : Bytes) (l : List Bytes)
    → insert a l ≡ a ∷ l
    → insert b l ≡ b ∷ l
    → insert a (insert b l) ≡ insert b (insert a l)
insert_front a b l p q =
    rw (p, q)
      (elim (Bool-cases (ltb_bytes a b)) [
        | inl lt ↦
            insert_here a b l (rw lt refl)
            ∙ sym (insert_past b a l (rw (ltb_bytes_asymm a b lt) refl) ∙ ap (λ k. a ∷ k) q)
        | inr ge ↦ elim (Bool-cases (ltb_bytes b a)) [
          | inl lt ↦
              (insert_past a b l (rw ge refl) ∙ ap (λ k. b ∷ k) p)
              ∙ sym (insert_here b a l (rw lt refl))
          | inr le ↦ let e = ltb_bytes_connex a b ge le in ap₂ (λ x y. insert x (y ∷ l)) e (sym e)
        ]
      ])

insert_nil : (a : Bytes) → insert a [] ≡ a ∷ []
unfolding insert_by
insert_nil a = refl

insert_comm : (a b : Bytes) (l : List Bytes) → insert a (insert b l) ≡ insert b (insert a l)
insert_comm a b [] = insert_front a b [] (insert_nil a) (insert_nil b)
insert_comm a b (x ∷ xs) = elim (Bool-cases (comes_first x b)) [
  | inl p ↦ elim (Bool-cases (comes_first x a)) [
    | inl q ↦
        (ap (insert a) (insert_past b x xs p) ∙ insert_past a x (insert b xs) q)
        ∙ ap (λ k. x ∷ k) (insert_comm a b xs)
        ∙ sym (ap (insert b) (insert_past a x xs q) ∙ insert_past b x (insert a xs) p)
    | inr q ↦ insert_around a b x xs q p
  ]
  | inr p ↦ elim (Bool-cases (comes_first x a)) [
    | inl q ↦ sym (insert_around b a x xs p q)
    | inr q ↦ insert_front a b (x ∷ xs) (insert_here a x xs q) (insert_here b x xs p)
  ]
]

names-set : IsSet (List Bytes)
names-set = hlevel

sort_strings-foldr : (ext : External) (l : List Bytes) → sort_strings ext l ≡ foldr insert [] l
unfolding sort_strings sort_by
sort_strings-foldr ext [] = refl
sort_strings-foldr ext (x ∷ xs) = ap (insert x) (sort_strings-foldr ext xs)

sort_strings-perm :
    (ext : External) {l r : List Bytes} → Perm l r → sort_strings ext l ≡ sort_strings ext r
sort_strings-perm ext {l} {r} p =
    sort_strings-foldr ext l
    ∙ Perm.foldr-eq names-set insert insert_comm p []
    ∙ sym (sort_strings-foldr ext r)

-- The text of `Handler` does not depend on the order in which the ranges over the three maps give
-- their names.
pub metrics_text-perm :
    (ext : External) (r : Registry) (names : List Bytes)
    → Perm names (keys ext r.counters ++ keys ext r.gauges ++ keys ext r.histograms)
    → render_all ext r (sort_strings ext names) ≡ metrics_text ext r
unfolding metrics_text
metrics_text-perm ext r names p = ap (render_all ext r) (sort_strings-perm ext p)
