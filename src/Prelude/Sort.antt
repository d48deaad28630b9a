-- ===== src/Prelude/Sort.antt =====
-- Sorting by a Boolean order: `before a b` puts `a` in front of `b`. Elements that neither precedes
-- keep the order of the list.
use Prim.Native.Nat.{suc}
use mathlib.Core.Path.{◌≡◌, refl, ap, ◌∙◌}
use mathlib.Core.Bool.{Bool}
use mathlib.Core.List.{List, [], ◌∷◌, Perm}
use mathlib.Core.List.Perm
use mathlib.Core.Logic.{inl, inr}
use device_telemetry_ro.Prelude.Lists.{length}
use mathlib.Core.List.{Mem, Pairwise, mem-cons_self, mem-cons_of_mem}
use device_telemetry_ro.Prelude.Tests.{Bool-cases, if◌then◌else◌}

module _ {ℓ} {A : Type ℓ} (before : A → A → Bool) where
  unfoldable pub insert_by : A → List A → List A
  insert_by a [] = a ∷ []
  insert_by a (x ∷ xs) = let rest = insert_by a xs in if before x a then x ∷ rest else a ∷ x ∷ xs

  unfoldable pub sort_by : List A → List A
  unfolding insert_by
  sort_by [] = []
  sort_by (x ∷ xs) = insert_by x (sort_by xs)

  insert_by-perm : (a : A) (l : List A) → Perm (insert_by a l) (a ∷ l)
  unfolding insert_by
  insert_by-perm a [] = Perm.refl (a ∷ [])
  insert_by-perm a (x ∷ xs) = elim (Bool-cases (before x a)) [
    | inl e ↦ rw e (Perm.trans (Perm.cons x (insert_by-perm a xs)) (Perm.swap a x xs))
    | inr e ↦ rw e (Perm.refl (a ∷ x ∷ xs))
  ]

  pub sort_by-perm : (l : List A) → Perm (sort_by l) l
  unfolding sort_by
  sort_by-perm [] = Perm.refl []
  sort_by-perm (x ∷ xs) = Perm.trans (insert_by-perm x (sort_by xs)) (Perm.cons x (sort_by-perm xs))

  length-insert_by : (a : A) (l : List A) → length (insert_by a l) ≡ suc (length l)
  unfolding insert_by
  length-insert_by a [] = refl
  length-insert_by a (x ∷ xs) = elim (Bool-cases (before x a)) [
    | inl e ↦ rw e (ap suc (length-insert_by a xs))
    | inr e ↦ rw e refl
  ]

  pub length-sort_by : (l : List A) → length (sort_by l) ≡ length l
  unfolding sort_by
  length-sort_by [] = refl
  length-sort_by (x ∷ xs) = length-insert_by x (sort_by xs) ∙ ap suc (length-sort_by xs)

-- Two orders that put each element on the same side of those behind it sort a list alike.
module _ {ℓ} {A : Type ℓ} (p q : A → A → Bool) where
  insert_by_congr :
      (a : A) (l : List A) → ((x : A) → Mem x l → p x a ≡ q x a) → insert_by p a l ≡ insert_by q a l
  unfolding insert_by
  insert_by_congr a [] h = refl
  insert_by_congr a (x ∷ xs) h =
      let e = h x mem-cons_self in
      elim (Bool-cases (q x a)) [
        | inl c ↦
            rw e (rw c (ap (λ l. x ∷ l) (insert_by_congr a xs (λ y m. h y (mem-cons_of_mem x m)))))
        | inr c ↦ rw e (rw c refl)
      ]

  pub sort_by_congr : (l : List A) → Pairwise (λ a x. p x a ≡ q x a) l → sort_by p l ≡ sort_by q l
  unfolding sort_by
  sort_by_congr [] h = refl
  sort_by_congr (a ∷ l) (Pairwise.cons h t) =
      ap (insert_by p a) (sort_by_congr l t)
      ∙ insert_by_congr a (sort_by q l) (λ x m. h x ((Perm.mem_iff (sort_by-perm q l)).0 m))
