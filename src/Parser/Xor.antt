-- ===== src/Parser/Xor.antt =====
-- Exclusive or of a 16-bit register with a byte in its high half.
use Prim.Native.Nat.{bit_xor, digits, differ, bit_xor-bitwise}
use device_telemetry_ro.Prelude.{ℕ, zero, suc, ◌+◌, ◌*◌, ◌/◌, ◌%◌, ◌≤◌, ◌≡◌, refl, ap, ◌∙◌, arith}

abbrev xor_digits : ℕ → ℕ → ℕ → ℕ
xor_digits n a b = digits (λ b. b) differ n a b

xor_digits_fuel : (n m a b : ℕ) → a ≤ n → a ≤ m → xor_digits n a b ≡ xor_digits m a b
xor_digits_fuel zero zero a b p q = refl
xor_digits_fuel zero (suc m) zero b p q = refl
xor_digits_fuel zero (suc m) (suc a) b p q = absurd (omega arith)
xor_digits_fuel (suc n) zero zero b p q = refl
xor_digits_fuel (suc n) zero (suc a) b p q = absurd (omega arith)
xor_digits_fuel (suc n) (suc m) zero b p q = refl
xor_digits_fuel (suc n) (suc m) (suc a) b p q =
    ap (λ (x : ℕ). x * 2 + differ (suc a % 2) (b % 2))
      (xor_digits_fuel n m (suc a / 2) (b / 2) (omega arith) (omega arith))

differ-zero : (x : ℕ) → differ x 0 ≡ x
differ-zero zero = refl
differ-zero (suc x) = refl

-- An even right side keeps the lowest digit.
xor_even : (a b : ℕ) → bit_xor a (b * 2) ≡ bit_xor (a / 2) b * 2 + a % 2
xor_even zero b = omega (arith, bit_xor-bitwise 0 (b * 2), bit_xor-bitwise 0 b)
xor_even (suc a) b =
    let half : b * 2 / 2 ≡ b = omega arith in
    let even : b * 2 % 2 ≡ 0 = omega arith in
    bit_xor-bitwise (suc a) (b * 2)
    ∙ ap (λ (c : ℕ). xor_digits a (suc a / 2) c * 2 + differ (suc a % 2) (b * 2 % 2)) half
    ∙ ap (λ (c : ℕ). xor_digits a (suc a / 2) b * 2 + differ (suc a % 2) c) even
    ∙ omega (
      arith,
      differ-zero (suc a % 2),
      bit_xor-bitwise (suc a / 2) b,
      xor_digits_fuel a (suc a / 2) (suc a / 2) b (omega arith) (omega arith),
    )

xor_four : (a b : ℕ) → bit_xor a (b * 4) ≡ bit_xor (a / 4) b * 4 + a % 4
xor_four a b =
    ap (bit_xor a) (let e : b * 4 ≡ b * 2 * 2 = omega arith in e)
    ∙ omega (
      arith,
      xor_even a (b * 2),
      xor_even (a / 2) b,
      ap (λ (c : ℕ). bit_xor c b) (let e : a / 2 / 2 ≡ a / 4 = omega arith in e),
    )

xor_sixteen : (a b : ℕ) → bit_xor a (b * 16) ≡ bit_xor (a / 16) b * 16 + a % 16
xor_sixteen a b =
    ap (bit_xor a) (let e : b * 16 ≡ b * 4 * 4 = omega arith in e)
    ∙ omega (
      arith,
      xor_four a (b * 4),
      xor_four (a / 4) b,
      ap (λ (c : ℕ). bit_xor c b) (let e : a / 4 / 4 ≡ a / 16 = omega arith in e),
    )

-- A byte in the high half is combined with the high half, and the low half stays.
pub xor_high : (a b : ℕ) → bit_xor a (b * 256) ≡ bit_xor (a / 256) b * 256 + a % 256
xor_high a b =
    ap (bit_xor a) (let e : b * 256 ≡ b * 16 * 16 = omega arith in e)
    ∙ omega (
      arith,
      xor_sixteen a (b * 16),
      xor_sixteen (a / 16) b,
      ap (λ (c : ℕ). bit_xor c b) (let e : a / 16 / 16 ≡ a / 256 = omega arith in e),
    )
