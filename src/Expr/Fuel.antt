-- ===== src/Expr/Fuel.antt =====
-- internal/router/expr.go: the fuel that matchExpr's parser is given.
use device_telemetry_ro.Prelude.{
  ◌==◌, length, ℕ, zero, suc, ◌+◌, ◌*◌, ◌≤◌, ◌<◌, ◌≡◌, refl, Bool, true, false, ◌&&◌, ◌||◌, [], ◌∷◌,
  arith,
}
use device_telemetry_ro.Prelude.Bytes.{Bytes}
use device_telemetry_ro.Domain.{Event}
use device_telemetry_ro.External.{External}
use device_telemetry_ro.Expr.{
  unexpected_end, Outcome, parsed, failed, ◌>>=◌, skip_space, consume_keyword, parse_cmp,
  close_paren, parse_or, or_loop, parse_and, and_loop, parse_atom, fuel_for,
}
use device_telemetry_ro.Expr.Scan.{
  Shorter, Shorter-bind, length-skip_space, length-consume_keyword, Shorter-le, parse_cmp-Shorter,
}

branch-Shorter {ℓ} :
    {A : Type ℓ} (n m : ℕ) (found : Bool) (t : Bytes) (more done : Bytes → Outcome A)
    → length t ≤ m
    → (found ≡ true → length t < m)
    → ((u : Bytes) → length u < m → Shorter n (more u))
    → ((u : Bytes) → length u ≤ m → Shorter n (done u))
    → Shorter n (elim found [ true ↦ more t | false ↦ done t ])
branch-Shorter n m true t more done le lt hm hd = hm t (lt refl)
branch-Shorter n m false t more done le lt hm hd = hd t le

-- One turn of a loop: on from the keyword if it is there, else done.
loop-Shorter {ℓ} :
    {A : Type ℓ} (n k : ℕ) (ks s : Bytes) (more done : Bytes → Outcome A)
    → ((u : Bytes) → length u < length s → Shorter n (more u))
    → ((u : Bytes) → length u ≤ length s → Shorter n (done u))
    → Shorter n (
        let (found, t) = consume_keyword (k ∷ ks) s in
        elim found [ true ↦ more t | false ↦ done t ])
loop-Shorter n k ks s more done hm hd =
    let taken = length-consume_keyword k ks s in
    branch-Shorter n (length s) (consume_keyword (k ∷ ks) s).0 (consume_keyword (k ∷ ks) s).1 more
      done taken.0 taken.1 hm hd

shorter_of_le : (m n : ℕ) (t : Bytes) → m < n → length t ≤ m → length t < n
shorter_of_le m n t p q = omega arith

close_paren-Shorter : (n : ℕ) (v : Bool) (s : Bytes) → length s ≤ n → Shorter n (close_paren v s)
close_paren-Shorter n v [] h = tt
close_paren-Shorter n v (c ∷ s) h = ground arith

-- The two cases of an atom at a text that does not begin with white space.
atom-Shorter :
    (n : ℕ) (paren : Bool) (inner : Outcome Bool) (test : Outcome Bool)
    → Shorter n inner
    → Shorter n test
    → Shorter n (elim paren [ true ↦ inner >>= λ v u. close_paren v (skip_space u) | false ↦ test ])
atom-Shorter n true inner test hi ht =
    Shorter-bind n n inner _ hi
      (λ v u h. close_paren-Shorter n v (skip_space u) (omega (arith, length-skip_space u)))
atom-Shorter n false inner test hi ht = ht

-- What an atom does at its first byte.
first-Shorter :
    (ext : External) (ev : Event) (n : ℕ) (s : Bytes) (inner : Bytes → Outcome Bool)
    → length s ≤ n
    → ((t : Bytes) → length t < length s → Shorter n (inner t))
    → Shorter n (elim s [
      | [] ↦ failed unexpected_end
      | c ∷ t ↦ elim (c == b'(') [
        | true ↦ inner t >>= λ v u. close_paren v (skip_space u)
        | false ↦ parse_cmp ext ev (c ∷ t)
      ]
    ])
first-Shorter ext ev n [] inner le h = tt
first-Shorter ext ev n (c ∷ t) inner le h =
    atom-Shorter n (c == b'(') (inner t) (parse_cmp ext ev (c ∷ t)) (h t (omega arith)) (
      Shorter-le (length (c ∷ t)) n (parse_cmp ext ev (c ∷ t)) le
        (parse_cmp-Shorter ext ev (c ∷ t)))

mutual
  unfolding parse_or

  or-Shorter :
      (ext : External) (ev : Event) (f : ℕ) (s : Bytes)
      → 4 * length s + 3 ≤ f
      → Shorter (length s) (parse_or ext ev f s)
  or-Shorter ext ev zero s h = absurd (omega arith)
  or-Shorter ext ev (suc f) s h =
      Shorter-bind (length s) (length s) (parse_and ext ev f s) _
        (and-Shorter ext ev f s (omega arith))
        (λ left t lt. or_loop-Shorter ext ev f left t (length s) lt (omega arith))

  or_loop-Shorter :
      (ext : External) (ev : Event) (f : ℕ) (left : Bool) (s : Bytes) (n : ℕ)
      → length s < n
      → 4 * length s + 1 ≤ f
      → Shorter n (or_loop ext ev f left s)
  or_loop-Shorter ext ev zero left s n lt h = absurd (omega arith)
  or_loop-Shorter ext ev (suc f) left s n lt h =
      loop-Shorter n b'o' (b'r' ∷ []) s _ (λ t. parsed left t)
        (λ t ht.
          Shorter-bind (length t) n (parse_and ext ev f t) _ (and-Shorter ext ev f t (omega arith))
            (λ right u hu.
              or_loop-Shorter ext ev f (left || right) u n (omega arith) (omega arith)))
        (λ t ht. shorter_of_le (length s) n t lt ht)

  and-Shorter :
      (ext : External) (ev : Event) (f : ℕ) (s : Bytes)
      → 4 * length s + 2 ≤ f
      → Shorter (length s) (parse_and ext ev f s)
  and-Shorter ext ev zero s h = absurd (omega arith)
  and-Shorter ext ev (suc f) s h =
      Shorter-bind (length s) (length s) (parse_atom ext ev f s) _
        (parse_atom-Shorter ext ev f s (omega arith))
        (λ left t lt. and_loop-Shorter ext ev f left t (length s) lt (omega arith))

  and_loop-Shorter :
      (ext : External) (ev : Event) (f : ℕ) (left : Bool) (s : Bytes) (n : ℕ)
      → length s < n
      → 4 * length s + 1 ≤ f
      → Shorter n (and_loop ext ev f left s)
  and_loop-Shorter ext ev zero left s n lt h = absurd (omega arith)
  and_loop-Shorter ext ev (suc f) left s n lt h =
      loop-Shorter n b'a' (b'n' ∷ b'd' ∷ []) s _ (λ t. parsed left t)
        (λ t ht.
          Shorter-bind (length t) n (parse_atom ext ev f t) _
            (parse_atom-Shorter ext ev f t (omega arith))
            (λ right u hu.
              and_loop-Shorter ext ev f (left && right) u n (omega arith) (omega arith)))
        (λ t ht. shorter_of_le (length s) n t lt ht)

  parse_atom-Shorter :
      (ext : External) (ev : Event) (f : ℕ) (s : Bytes)
      → 4 * length s + 1 ≤ f
      → Shorter (length s) (parse_atom ext ev f s)
  parse_atom-Shorter ext ev zero s h = absurd (omega arith)
  parse_atom-Shorter ext ev (suc f) s h =
      first-Shorter ext ev (length s) (skip_space s) (parse_or ext ev f) (length-skip_space s)
        (λ t ht.
          Shorter-le (length t) (length s) (parse_or ext ev f t)
            (omega (arith, length-skip_space s))
            (or-Shorter ext ev f t (omega (arith, length-skip_space s))))

-- The parser never runs out of the fuel that matchExpr gives it, and leaves less text than it got.
pub parse_or-Shorter :
    (ext : External) (ev : Event) (s : Bytes) → Shorter (length s) (parse_or ext ev (fuel_for s) s)
unfolding fuel_for
parse_or-Shorter ext ev s = or-Shorter ext ev (4 * length s + 3) s (omega arith)
