-- ===== src/Prelude/Keep.antt =====
-- The elements that pass a test: which they are, and that their order follows the list's.
use mathlib.Core.Path.{◌≡◌, ap, subst, subst₂}
use mathlib.Core.Bool.{Bool, true, false, Bool-set}
use mathlib.Core.Logic.{inl, inr, ∥∥₁_elim}
use mathlib.Core.Logic.Or
use mathlib.Core.List.{
  List, [], ◌∷◌, Mem, Mem-prop, Perm, Permᴰ, Perm-prop, mem-cons, mem-cons_of_mem, mem-cons_self,
  not-mem-nil,
}
use mathlib.Core.List.Perm
use mathlib.Core.HLevel.{×_prop}
use device_telemetry_ro.Prelude.Tests.{Bool-cases, if◌then◌else◌}
use device_telemetry_ro.Prelude.Lists.{keep}

pub keep-cons_true {ℓ} :
    {A : Type ℓ} (p : A → Bool) (x : A) (xs : List A) → p x ≡ true → keep p (x ∷ xs) ≡ x ∷ keep p xs
keep-cons_true p x xs e = rw e

pub keep-cons_false {ℓ} :
    {A : Type ℓ} (p : A → Bool) (x : A) (xs : List A) → p x ≡ false → keep p (x ∷ xs) ≡ keep p xs
keep-cons_false p x xs e = rw e

pub mem-keep→ {ℓ} :
    {A : Type ℓ} (p : A → Bool) (a : A) (l : List A) → Mem a (keep p l) → Mem a l × (p a ≡ true)
mem-keep→ p a [] m = absurd (not-mem-nil m)
mem-keep→ p a (x ∷ xs) m = elim (Bool-cases (p x)) [
  | inl e ↦
      Or.elim (×_prop Mem-prop (Bool-set (p a) true))
        (mem-cons.0 (rw (keep-cons_true p x xs e) at m)) (λ q. (rw q mem-cons_self, rw q e))
        (λ n. let (k, t) = mem-keep→ p a xs n in (mem-cons_of_mem x k, t))
  | inr e ↦
      let (k, t) = mem-keep→ p a xs (rw (keep-cons_false p x xs e) at m) in (mem-cons_of_mem x k, t)
]

pub mem-keep← {ℓ} :
    {A : Type ℓ} (p : A → Bool) (a : A) (l : List A) → p a ≡ true → Mem a l → Mem a (keep p l)
mem-keep← p a [] t m = absurd (not-mem-nil m)
mem-keep← p a (x ∷ xs) t m = elim (Bool-cases (p x)) [
  | inl e ↦ rw (keep-cons_true p x xs e) (
      Or.elim Mem-prop (mem-cons.0 m) (λ q. rw q mem-cons_self)
        (λ n. mem-cons_of_mem x (mem-keep← p a xs t n)))
  | inr e ↦
      rw (keep-cons_false p x xs e)
        (Or.elim Mem-prop (mem-cons.0 m) (λ q. cc (e, t, ap p q)) (λ n. mem-keep← p a xs t n))
]

perm-if_cons {ℓ} :
    {A : Type ℓ} (b : Bool) (x : A) {l r : List A}
    → Perm l r
    → Perm (if b then x ∷ l else l) (if b then x ∷ r else r)
perm-if_cons true x q = Perm.cons x q
perm-if_cons false x q = q

perm-if_swap {ℓ} :
    {A : Type ℓ} (b c : Bool) (x y : A) (l : List A)
    → Perm
        (if b then x ∷ (if c then y ∷ l else l) else (if c then y ∷ l else l))
        (if c then y ∷ (if b then x ∷ l else l) else (if b then x ∷ l else l))
perm-if_swap true true x y l = Perm.swap y x l
perm-if_swap true false x y l = Perm.refl (x ∷ l)
perm-if_swap false true x y l = Perm.refl (y ∷ l)
perm-if_swap false false x y l = Perm.refl l

keep-permᴰ {ℓ} : {A : Type ℓ} (p : A → Bool) {l r : List A} → Permᴰ l r → Perm (keep p l) (keep p r)
keep-permᴰ p Permᴰ.nil = Perm.refl []
keep-permᴰ p (Permᴰ.cons {a = x} {b = y} {l₁ = l} {l₂ = r} e q) =
    subst (λ z. Perm (keep p (x ∷ l)) (keep p (z ∷ r))) e (perm-if_cons (p x) x (keep-permᴰ p q))
keep-permᴰ p (Permᴰ.swap {a = x} {b = y} {a' = y'} {b' = x'} {l = l} e f) =
    subst₂ (λ z u. Perm (keep p (x ∷ y ∷ l)) (keep p (u ∷ z ∷ l))) e f
      (perm-if_swap (p x) (p y) x y (keep p l))
keep-permᴰ p (Permᴰ.trans q r) = Perm.trans (keep-permᴰ p q) (keep-permᴰ p r)

pub keep-perm {ℓ} :
    {A : Type ℓ} (p : A → Bool) {l r : List A} → Perm l r → Perm (keep p l) (keep p r)
keep-perm p q = ∥∥₁_elim q Perm-prop (keep-permᴰ p)
