-- ===== src/Text/Trim.antt =====
-- strings.TrimSpace on texts with no white space at their ends.
use mathlib.Core.List.{reverse, reverse-append, reverse-reverse}
use device_telemetry_ro.Prelude.{leb, ℕ, ◌≡◌, sym, ap, ◌∙◌, Bool, false, [], ◌∷◌, ◌++◌, arith}
use device_telemetry_ro.Prelude.Bytes.{Bytes}
use device_telemetry_ro.Text.{
  is_ascii_space, space2, space3, trim_front, trim_left, trim_right, trim_space,
}

-- A first byte that begins no white space.
abbrev pub Solid : ℕ → Type 0
Solid c = (is_ascii_space c ≡ false) × (leb 0x80 c ≡ false)

pub trim_front_solid :
    (two : ℕ → ℕ → Bool) (three : ℕ → ℕ → ℕ → Bool) (c : ℕ) (s : Bytes)
    → is_ascii_space c ≡ false
    → ((b : ℕ) → two c b ≡ false)
    → ((a b : ℕ) → three c a b ≡ false)
    → trim_front two three (c ∷ s) ≡ c ∷ s
unfolding trim_front
trim_front_solid two three c [] h h2 h3 = rw h
trim_front_solid two three c (b ∷ []) h h2 h3 = rw (h, h2 b)
trim_front_solid two three c (b ∷ a ∷ s) h h2 h3 = rw (h, h2 b, h3 b a)

trim_left-Solid : (c : ℕ) (s : Bytes) → Solid c → trim_left (c ∷ s) ≡ c ∷ s
trim_left-Solid c s h =
    trim_front_solid space2 space3 c s h.0 (λ b. ground arith) (λ a b. ground arith)

trim_right-Solid : (d : ℕ) (s : Bytes) → Solid d → trim_right (s ++ d ∷ []) ≡ s ++ d ∷ []
trim_right-Solid d s h =
    let two : ℕ → ℕ → Bool = λ b a. space2 a b in
    let three : ℕ → ℕ → ℕ → Bool = λ c b a. space3 a b c in
    ap reverse (
      ap (trim_front two three) (reverse-append s (d ∷ []))
      ∙ trim_front_solid two three d (reverse s) h.0 (λ b. ground arith) (λ a b. ground arith)
      ∙ sym (reverse-append s (d ∷ [])))
    ∙ reverse-reverse (s ++ d ∷ [])

-- A text that begins and ends with bytes of ASCII other than white space is left as it is.
pub trim_space-Solid :
    (c d : ℕ) (s : Bytes) → Solid c → Solid d → trim_space (c ∷ s ++ d ∷ []) ≡ c ∷ s ++ d ∷ []
unfolding trim_space
trim_space-Solid c d s hc hd =
    rw (trim_left-Solid c (s ++ d ∷ []) hc) (trim_right-Solid d (c ∷ s) hd)
