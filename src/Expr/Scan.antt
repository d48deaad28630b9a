-- ===== src/Expr/Scan.antt =====
-- internal/router/expr.go: how much text each step of the scanner leaves.
use device_telemetry_ro.Prelude.{
  ◌==◌, if◌then◌else◌, Bool-cases, Option-cases, length, length-drop, ℕ, suc, ◌+◌, ◌≤◌, ◌<◌, ◌≡◌,
  inl, inr, Bool, true, false, not, Option, none, some, [], ◌∷◌, arith,
}
use device_telemetry_ro.Prelude.Bytes.{Bytes, codes, eqb}
use device_telemetry_ro.Domain.{Float64, Event}
use device_telemetry_ro.External.{External}
use device_telemetry_ro.Expr.{
  CmpOp, ExprError, expected_field, expected_literal, not_numeric, Outcome, parsed, failed, no_fuel,
  ◌>>=◌, is_word_char, skip_space, after_keyword, consume_keyword, span, nonempty, parse_ident,
  parse_op, close_quote, is_quote, in_bare, literal_at, parse_literal, compare_expr, parse_cmp,
}

-- The outcome is a value or an error, never the end of the fuel, and a value leaves fewer bytes
-- than `n`.
abbrev pub Shorter {ℓ} : {A : Type ℓ} → ℕ → Outcome A → Type 0
Shorter n (parsed a s) = length s < n
Shorter n (failed e) = Unit
Shorter n no_fuel = ⊥

pub Shorter-bind {ℓ κ} :
    {A : Type ℓ} {B : Type κ} (n m : ℕ) (o : Outcome A) (f : A → Bytes → Outcome B)
    → Shorter n o
    → ((a : A) (s : Bytes) → length s < n → Shorter m (f a s))
    → Shorter m (o >>= f)
Shorter-bind n m (parsed a s) f h k = k a s h
Shorter-bind n m (failed e) f h k = tt
Shorter-bind n m no_fuel f h k = h

pub length-skip_space : (s : Bytes) → length (skip_space s) ≤ length s
unfolding skip_space
length-skip_space [] = omega arith
length-skip_space (c ∷ s) = ground (arith, length-skip_space s)

length-after_keyword :
    (kw s r : Bytes) → after_keyword kw s ≡ some r → length r + length kw ≡ length s
unfolding after_keyword
length-after_keyword [] s r h = ground arith
length-after_keyword (k ∷ ks) [] r h = cc
length-after_keyword (k ∷ ks) (c ∷ s) r h = ground (arith, length-after_keyword ks s r)

-- A keyword that is found is taken; else only white space is.
pub length-consume_keyword :
    (k : ℕ) (ks s : Bytes)
    → (length (consume_keyword (k ∷ ks) s).1 ≤ length s)
      × ((consume_keyword (k ∷ ks) s).0 ≡ true → length (consume_keyword (k ∷ ks) s).1 < length s)
unfolding consume_keyword
length-consume_keyword k ks s = elim (Option-cases (after_keyword (k ∷ ks) (skip_space s))) [
  | inl e ↦ rw e (length-skip_space s, λ h. cc)
  | inr (r, e) ↦ rw e (
      ground (
        arith,
        length-skip_space s,
        length-skip_space r,
        length-after_keyword (k ∷ ks) (skip_space s) r e,
      ))
]

pub length-span : (p : ℕ → Bool) (s : Bytes) → length (span p s).0 + length (span p s).1 ≡ length s
unfolding span
length-span p [] = omega arith
length-span p (c ∷ s) = ground (arith, length-span p s)

nonempty-Shorter :
    (e : ExprError) (n : ℕ) (w : Bytes × Bytes)
    → length w.0 + length w.1 ≤ n
    → Shorter n (nonempty e w)
nonempty-Shorter e n ([], s) h = tt
nonempty-Shorter e n (c ∷ w, s) h = omega arith

pub parse_ident-Shorter : (s : Bytes) → Shorter (length s) (parse_ident s)
unfolding parse_ident
parse_ident-Shorter s =
    nonempty-Shorter expected_field (length s) (span is_word_char (skip_space s))
      (omega (arith, length-skip_space s, length-span is_word_char (skip_space s)))

pub parse_op-Shorter : (s : Bytes) → Shorter (length s) (parse_op s)
unfolding parse_op
parse_op-Shorter [] = tt
parse_op-Shorter (a ∷ s) = ground (arith, length-drop 1 s)

close_quote-Shorter :
    (n : ℕ) (w : Bytes × Bytes) → length w.0 + length w.1 < n → Shorter n (close_quote w)
close_quote-Shorter n (lit, []) h = tt
close_quote-Shorter n (lit, q ∷ s) h = omega arith

literal_at-Shorter : (s : Bytes) → Shorter (length s) (literal_at s)
unfolding literal_at
literal_at-Shorter [] = tt
literal_at-Shorter (c ∷ s) = elim (Bool-cases (is_quote c)) [
  | inl q ↦ rw q (
      close_quote-Shorter (suc (length s)) (span (λ d. not (d == c)) s)
        (omega (arith, length-span (λ d. not (d == c)) s)))
  | inr b ↦ rw b (
      nonempty-Shorter expected_literal (suc (length s)) (span in_bare (c ∷ s))
        (omega (arith, length-span in_bare (c ∷ s))))
]

pub Shorter-le {ℓ} : {A : Type ℓ} (n m : ℕ) (o : Outcome A) → n ≤ m → Shorter n o → Shorter m o
Shorter-le n m (parsed a s) h k = omega arith
Shorter-le n m (failed e) h k = tt
Shorter-le n m no_fuel h k = k

pub parse_literal-Shorter : (s : Bytes) → Shorter (length s) (parse_literal s)
unfolding parse_literal
parse_literal-Shorter s =
    Shorter-le (length (skip_space s)) (length s) (literal_at (skip_space s)) (length-skip_space s)
      (literal_at-Shorter (skip_space s))

Shorter-if {ℓ} :
    {A : Type ℓ} (n : ℕ) (b : Bool) (x y : Outcome A)
    → Shorter n x
    → Shorter n y
    → Shorter n (if b then x else y)
Shorter-if n true x y hx hy = hx
Shorter-if n false x y hx hy = hy

Shorter-option {ℓ} :
    {A : Type ℓ} (n : ℕ) (o : Option Float64) (f : Float64 → Outcome A)
    → ((v : Float64) → Shorter n (f v))
    → Shorter n (elim o [ none ↦ failed not_numeric | some v ↦ f v ])
Shorter-option n none f h = tt
Shorter-option n (some v) f h = h v

compare_expr-Shorter :
    (ext : External) (name : Bytes) (op : CmpOp) (lit : Bytes) (ev : Event) (s : Bytes) (n : ℕ)
    → length s < n
    → Shorter n (compare_expr ext name op lit ev s)
unfolding compare_expr
compare_expr-Shorter ext name op lit ev s n h = Shorter-if n (eqb name (codes "metric")) _ _ h (
    Shorter-if n (eqb name (codes "device")) _ _ h (
      Shorter-if n (eqb name (codes "unit")) _ _ h (
        Shorter-if n (eqb name (codes "value")) _ _
          (Shorter-option n (ext.parse_float lit) _ (λ v. h)) tt)))

pub parse_cmp-Shorter :
    (ext : External) (ev : Event) (s : Bytes) → Shorter (length s) (parse_cmp ext ev s)
unfolding parse_cmp
parse_cmp-Shorter ext ev s =
    Shorter-bind (length s) (length s) (parse_ident s) _ (parse_ident-Shorter s) λ name s₁ h₁.
      Shorter-bind (length (skip_space s₁)) (length s) (parse_op (skip_space s₁)) _
        (parse_op-Shorter (skip_space s₁))
        λ op s₂ h₂.
          Shorter-bind (length (skip_space s₂)) (length s) (parse_literal (skip_space s₂)) _
            (parse_literal-Shorter (skip_space s₂))
            λ lit s₃ h₃.
              compare_expr-Shorter ext name op lit ev s₃ (length s)
                (omega (arith, length-skip_space s₁, length-skip_space s₂))
