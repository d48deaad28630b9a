-- ===== src/Parser/Crc.antt =====
-- internal/parser/parser.go: one step of the CRC of `ChecksumHex`, on a register and a byte.
use Prim.Native.Nat.{bit_xor}
use device_telemetry_ro.Prelude.{
  ltb, ◌==◌, if◌then◌else◌, ==_iff, Bool-cases, &&-eq-true, ℕ, zero, suc, ◌+◌, ◌*◌, ◌/◌, ◌%◌, ◌<◌,
  ◌≡◌, refl, sym, ap, subst, ◌∙◌, inl, inr, Bool, true, ◌&&◌, arith,
}
use device_telemetry_ro.Parser.{crc_bit, crc_bits, crc_byte}
use device_telemetry_ro.Parser.Xor.{xor_high}

-- A test that holds of every number below a bound.
below : ℕ → (ℕ → Bool) → Bool
below zero good = true
below (suc bound) good = let rest = below bound good in good bound && rest

below-true : (bound m : ℕ) (good : ℕ → Bool) → m < bound → below bound good ≡ true → good m ≡ true
unfolding below
below-true zero m good small h = absurd (omega arith)
below-true (suc bound) m good small h =
    let (here, rest) = &&-eq-true (good bound) (below bound good) h in
    elim (Bool-cases (m == bound)) [
      | inl e ↦ subst (λ (k : ℕ). good k ≡ true) (sym ((==_iff m bound).0 e)) here
      | inr e ↦ below-true bound m good (ground arith) rest
    ]

below-holds : (n : ℕ) (p : ℕ → Bool) (x : ℕ) → below n p ≡ true → x < n → p x ≡ true
below-holds n p x h small = below-true n x p small h

-- The register before a round, from the register after it: the polynomial is odd.
crc_unbit : ℕ → ℕ
crc_unbit y = if y % 2 == 0 then y / 2 else bit_xor y 0x1021 / 2 + 32768

round_trips : ℕ → Bool
round_trips x = ltb (crc_bit x) 65536 && crc_unbit (crc_bit x) == x

crc_bit_table : below 256 (λ h. below 256 (λ l. round_trips (h * 256 + l))) ≡ true
unfolding below round_trips crc_unbit crc_bit
crc_bit_table = refl

round_trips-lt : (x : ℕ) → x < 65536 → round_trips x ≡ true
round_trips-lt x h =
    let inner =
      below-holds 256 (λ g. below 256 (λ l. round_trips (g * 256 + l))) (x / 256) crc_bit_table
        (omega arith) in
    let here =
      below-holds 256 (λ l. round_trips (x / 256 * 256 + l)) (x % 256) inner (omega arith) in
    let whole : x / 256 * 256 + x % 256 ≡ x = omega arith in rw (← whole) here

crc_bit-lt : (x : ℕ) → x < 65536 → crc_bit x < 65536
unfolding round_trips
crc_bit-lt x h = ground (arith, round_trips-lt x h)

crc_unbit-crc_bit : (x : ℕ) → x < 65536 → crc_unbit (crc_bit x) ≡ x
unfolding round_trips
crc_unbit-crc_bit x h = ground (arith, round_trips-lt x h)

crc_bits-lt : (n x : ℕ) → x < 65536 → crc_bits n x < 65536
unfolding crc_bits
crc_bits-lt zero x h = h
crc_bits-lt (suc n) x h = crc_bits-lt n (crc_bit x) (crc_bit-lt x h)

crc_bits_inj : (n x y : ℕ) → x < 65536 → y < 65536 → crc_bits n x ≡ crc_bits n y → x ≡ y
unfolding crc_bits
crc_bits_inj zero x y hx hy e = e
crc_bits_inj (suc n) x y hx hy e =
    let same = crc_bits_inj n (crc_bit x) (crc_bit y) (crc_bit-lt x hx) (crc_bit-lt y hy) e in
    sym (crc_unbit-crc_bit x hx) ∙ ap crc_unbit same ∙ crc_unbit-crc_bit y hy

xor_table :
    below 256 (λ a.
      below 256 (λ b.
        ltb (bit_xor a b) 256 && bit_xor (bit_xor a b) b == a && bit_xor (bit_xor a b) a == b))
    ≡ true
unfolding below
xor_table = refl

xor_tests : ℕ → ℕ → Bool
xor_tests a b =
    ltb (bit_xor a b) 256 && bit_xor (bit_xor a b) b == a && bit_xor (bit_xor a b) a == b

xor_tests-lt : (a b : ℕ) → a < 256 → b < 256 → xor_tests a b ≡ true
unfolding xor_tests
xor_tests-lt a b ha hb =
    below-holds 256 (xor_tests a) b (below-holds 256 (λ c. below 256 (xor_tests c)) a xor_table ha)
      hb

xor_byte-lt : (a b : ℕ) → a < 256 → b < 256 → bit_xor a b < 256
unfolding xor_tests
xor_byte-lt a b ha hb = ground (arith, xor_tests-lt a b ha hb)

xor_byte_right : (a b : ℕ) → a < 256 → b < 256 → bit_xor (bit_xor a b) b ≡ a
unfolding xor_tests
xor_byte_right a b ha hb = ground (arith, xor_tests-lt a b ha hb)

xor_byte_left : (a b : ℕ) → a < 256 → b < 256 → bit_xor (bit_xor a b) a ≡ b
unfolding xor_tests
xor_byte_left a b ha hb = ground (arith, xor_tests-lt a b ha hb)

-- the register once a byte is mixed in
abbrev mixed : ℕ → ℕ → ℕ
mixed c b = bit_xor c (b * 256 % 65536)

mixed_halves : (c b : ℕ) → b < 256 → mixed c b ≡ bit_xor (c / 256) b * 256 + c % 256
mixed_halves c b hb =
    ap (bit_xor c) (let e : b * 256 % 65536 ≡ b * 256 = omega arith in e) ∙ xor_high c b

mixed-lt : (c b : ℕ) → c < 65536 → b < 256 → mixed c b < 65536
mixed-lt c b hc hb = omega (arith, mixed_halves c b hb, xor_byte-lt (c / 256) b (omega arith) hb)

mixed_high :
    (c b d e : ℕ)
    → c < 65536
    → b < 256
    → d < 65536
    → e < 256
    → mixed c b ≡ mixed d e
    → (bit_xor (c / 256) b ≡ bit_xor (d / 256) e) × (c % 256 ≡ d % 256)
mixed_high c b d e hc hb hd he h =
    let p = mixed_halves c b hb in let q = mixed_halves d e he in (omega arith, omega arith)

pub crc_byte_lt : (c b : ℕ) → c < 65536 → b < 256 → crc_byte c b < 65536
unfolding crc_byte
crc_byte_lt c b hc hb = crc_bits-lt 8 (mixed c b) (mixed-lt c b hc hb)

-- Different bytes lead from one register to different ones.
pub crc_byte_inj_byte :
    (c b b' : ℕ) → c < 65536 → b < 256 → b' < 256 → crc_byte c b ≡ crc_byte c b' → b ≡ b'
unfolding crc_byte
crc_byte_inj_byte c b b' hc hb hb' e =
    let high =
      mixed_high c b c b' hc hb hc hb'
        (crc_bits_inj 8 (mixed c b) (mixed c b') (mixed-lt c b hc hb) (mixed-lt c b' hc hb') e) in
    sym (xor_byte_left (c / 256) b (omega arith) hb)
    ∙ ap (λ (x : ℕ). bit_xor x (c / 256)) high.0
    ∙ xor_byte_left (c / 256) b' (omega arith) hb'

-- One byte leads from different registers to different ones.
pub crc_byte_inj_register :
    (c d b : ℕ) → c < 65536 → d < 65536 → b < 256 → crc_byte c b ≡ crc_byte d b → c ≡ d
unfolding crc_byte
crc_byte_inj_register c d b hc hd hb e =
    let high =
      mixed_high c b d b hc hb hd hb
        (crc_bits_inj 8 (mixed c b) (mixed d b) (mixed-lt c b hc hb) (mixed-lt d b hd hb) e) in
    let upper : c / 256 ≡ d / 256 =
      sym (xor_byte_right (c / 256) b (omega arith) hb)
      ∙ ap (λ (x : ℕ). bit_xor x b) high.0
      ∙ xor_byte_right (d / 256) b (omega arith) hb in
    omega (arith, high.1, upper)
