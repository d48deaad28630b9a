-- ===== src/Prelude/Int.antt =====
-- Signed integers over the native numbers, and Go's 64-bit `int` and `time.Duration`, which wrap.
use Prim.Native.Nat.{ℕ, suc, ◌+◌, ◌-◌, ◌*◌, ◌%◌, ◌^◌, ◌≤◌}
use mathlib.Core.Path.{◌≡◌}
use mathlib.Core.Bool.{Bool}
use native.Mathlib.Omega.{arith}
use device_telemetry_ro.Prelude.Tests.{ltb, leb, ◌==◌, if◌then◌else◌}

-- `negsuc n` is -(n + 1).
pub data ℤ : Type 0 where
  pos : ℕ → ℤ
  negsuc : ℕ → ℤ

abbrev pub pos_part : ℤ → ℕ
pos_part (pos n) = n
pos_part (negsuc n) = 0

abbrev pub neg_part : ℤ → ℕ
neg_part (pos n) = 0
neg_part (negsuc n) = suc n

-- a - b, as an integer.
abbrev pub sub_ℕ : ℕ → ℕ → ℤ
sub_ℕ a b = if leb b a then pos (a - b) else negsuc (b - a - 1)

abbrev pub leb_ℤ : ℤ → ℤ → Bool
leb_ℤ a b = leb (pos_part a + neg_part b) (pos_part b + neg_part a)

abbrev pub ltb_ℤ : ℤ → ℤ → Bool
ltb_ℤ a b = ltb (pos_part a + neg_part b) (pos_part b + neg_part a)

abbrev pub eqb_ℤ : ℤ → ℤ → Bool
eqb_ℤ a b = pos_part a + neg_part b == pos_part b + neg_part a

abbrev pub two_63 : ℕ
two_63 = 2 ^ 63

abbrev pub two_64 : ℕ
two_64 = 2 ^ 64

-- The int64 with a given 64-bit pattern.
abbrev pub from_bits : ℕ → ℤ
from_bits w = if ltb w two_63 then pos w else negsuc (two_64 - w - 1)

-- The 64-bit pattern of a number, and so its value as an int64.
abbrev to_bits : ℤ → ℕ
to_bits (pos n) = n % two_64
to_bits (negsuc n) = two_64 - 1 - n % two_64

-- `d * 2` on an int64, which wraps.
unfoldable pub double64 : ℤ → ℤ
double64 d = from_bits ((to_bits d * 2) % two_64)

-- `time.Time.Sub`: a difference of instants, held to the range of int64.
unfoldable pub saturate64 : ℤ → ℤ
saturate64 (pos n) = if ltb n two_63 then pos n else pos (two_63 - 1)
saturate64 (negsuc n) = if ltb n two_63 then negsuc n else negsuc (two_63 - 1)

-- Doubling a number that has room is exact.
pub double64_exact : (n : ℕ) → n * 2 ≤ two_63 - 1 → double64 (pos n) ≡ pos (n * 2)
unfolding double64
double64_exact n h = ground arith
