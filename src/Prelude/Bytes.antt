-- ===== src/Prelude/Bytes.antt =====
-- Go strings are sequences of bytes: their equality, their order, and literals.
use Prim.Native.Nat.{ℕ}
use Prim.Native.Char.{code}
use Prim.Native.String.{String}
use mathlib.Core.Path.{◌≡◌, refl}
use mathlib.Core.Logic.{◌↔◌}
use mathlib.Core.Bool.{Bool, true, false, ◌&&◌}
use mathlib.Core.List.{List, [], ◌∷◌}
use native.Mathlib.Omega.{arith}
use device_telemetry_ro.Prelude.Tests.{ltb, ◌==◌, if◌then◌else◌}

abbrev pub Bytes : Type 0
Bytes = List ℕ

-- The bytes of a text literal; every literal here is ASCII.
abbrev pub codes : String → Bytes
codes String.[] = []
codes (String.◌∷◌ c s) = code c ∷ codes s

-- `==` on strings.
unfoldable pub eqb : Bytes → Bytes → Bool
eqb [] [] = true
eqb (x ∷ xs) (y ∷ ys) = x == y && eqb xs ys
eqb _ _ = false

-- `<` on strings, byte by byte.
unfoldable pub ltb_bytes : Bytes → Bytes → Bool
ltb_bytes [] [] = false
ltb_bytes [] (y ∷ ys) = true
ltb_bytes (x ∷ xs) [] = false
ltb_bytes (x ∷ xs) (y ∷ ys) = if x == y then ltb_bytes xs ys else ltb x y

pub eqb_refl : (s : Bytes) → eqb s s ≡ true
unfolding eqb
eqb_refl [] = refl
eqb_refl (x ∷ xs) = ground (arith, eqb_refl xs)

pub eqb→eq : (s t : Bytes) → eqb s t ≡ true → s ≡ t
unfolding eqb
eqb→eq [] [] h = refl
eqb→eq [] (y ∷ ys) h = cc
eqb→eq (x ∷ xs) [] h = cc
eqb→eq (x ∷ xs) (y ∷ ys) h = ground (arith, eqb→eq xs ys)

pub eqb_iff : (s t : Bytes) → (eqb s t ≡ true) ↔ (s ≡ t)
eqb_iff s t = (eqb→eq s t, λ e. rw e (eqb_refl t))

pub ltb_bytes_irrefl : (s : Bytes) → ltb_bytes s s ≡ false
unfolding ltb_bytes
ltb_bytes_irrefl [] = refl
ltb_bytes_irrefl (x ∷ xs) = ground (arith, ltb_bytes_irrefl xs)

pub ltb_bytes_trans :
    (s t u : Bytes) → ltb_bytes s t ≡ true → ltb_bytes t u ≡ true → ltb_bytes s u ≡ true
unfolding ltb_bytes
ltb_bytes_trans [] [] u p q = cc
ltb_bytes_trans [] (y ∷ ys) [] p q = cc
ltb_bytes_trans [] (y ∷ ys) (z ∷ zs) p q = refl
ltb_bytes_trans (x ∷ xs) [] u p q = cc
ltb_bytes_trans (x ∷ xs) (y ∷ ys) [] p q = cc
ltb_bytes_trans (x ∷ xs) (y ∷ ys) (z ∷ zs) p q = ground (arith, ltb_bytes_trans xs ys zs)

-- Two different strings are ordered one way or the other.
pub ltb_bytes_connex : (s t : Bytes) → ltb_bytes s t ≡ false → ltb_bytes t s ≡ false → s ≡ t
unfolding ltb_bytes
ltb_bytes_connex [] [] p q = refl
ltb_bytes_connex [] (y ∷ ys) p q = cc
ltb_bytes_connex (x ∷ xs) [] p q = cc
ltb_bytes_connex (x ∷ xs) (y ∷ ys) p q = ground (arith, ltb_bytes_connex xs ys)

pub ltb_bytes_asymm : (s t : Bytes) → ltb_bytes s t ≡ true → ltb_bytes t s ≡ false
unfolding ltb_bytes
ltb_bytes_asymm [] [] p = refl
ltb_bytes_asymm [] (y ∷ ys) p = refl
ltb_bytes_asymm (x ∷ xs) [] p = cc
ltb_bytes_asymm (x ∷ xs) (y ∷ ys) p = ground (arith, ltb_bytes_asymm xs ys)

-- "not less" is transitive.
pub ltb_bytes_not_trans :
    (s t u : Bytes) → ltb_bytes s t ≡ false → ltb_bytes t u ≡ false → ltb_bytes s u ≡ false
unfolding ltb_bytes
ltb_bytes_not_trans [] [] [] p q = refl
ltb_bytes_not_trans [] [] (z ∷ zs) p q = cc
ltb_bytes_not_trans [] (y ∷ ys) u p q = cc
ltb_bytes_not_trans (x ∷ xs) t [] p q = refl
ltb_bytes_not_trans (x ∷ xs) [] (z ∷ zs) p q = cc
ltb_bytes_not_trans (x ∷ xs) (y ∷ ys) (z ∷ zs) p q = ground (arith, ltb_bytes_not_trans xs ys zs)
