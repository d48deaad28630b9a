-- ===== src/Expr/Turns.antt =====
-- One turn of each loop of the evaluator, and what follows a verdict.
use device_telemetry_ro.Prelude.{
  ◌==◌, ℕ, zero, suc, ◌≡◌, refl, sym, ap, ◌∙◌, Bool, true, false, ◌&&◌, ◌||◌, [], ◌∷◌, ◌++◌, arith,
}
use device_telemetry_ro.Prelude.Bytes.{Bytes}
use device_telemetry_ro.Domain.{Event}
use device_telemetry_ro.External.{External}
use device_telemetry_ro.Text.{is_space}
use device_telemetry_ro.Expr.{
  CmpOp, unexpected_end, Outcome, parsed, failed, ◌>>=◌, is_word_char, skip_space, after_keyword,
  consume_keyword, in_bare, compare_expr, parse_cmp, or_word, and_word, close_paren, parse_or,
  or_loop, parse_and, and_loop, parse_atom,
}
use device_telemetry_ro.Expr.Syntax.{
  OpText, Verdict, holds, fails, both, give, compare_verdict, show_op, IsBlank,
}
use device_telemetry_ro.Expr.Tokens.{
  skip_space_solid, skip_space-append, skip_space_idem, consume_keyword-skip, consume-missed, stops,
}

-- What may follow an expression: its end, or white space and a closing parenthesis. A bare literal
-- stops there, and neither keyword is found.
pub record Closes (r : Bytes) : Type 0 where
  pub no_bare : stops in_bare r ≡ true
  pub no_or : consume_keyword or_word r ≡ (false, skip_space r)
  pub no_and : consume_keyword and_word r ≡ (false, skip_space r)

pub Closes-end : Closes []
unfolding consume_keyword
Closes-end = record { no_bare = refl; no_or = refl; no_and = refl }

blank_stops : (v r : Bytes) → IsBlank v → stops in_bare (v ++ b')' ∷ r) ≡ true
blank_stops [] r h = refl
blank_stops (c ∷ v) r h = ground arith

pub skip_to_paren : (v r : Bytes) → IsBlank v → skip_space (v ++ b')' ∷ r) ≡ b')' ∷ r
skip_to_paren v r h = skip_space-append v (b')' ∷ r) h ∙ skip_space_solid b')' r refl

pub Closes-paren : (v r : Bytes) → IsBlank v → Closes (v ++ b')' ∷ r)
unfolding after_keyword
Closes-paren v r h =
    let e = skip_to_paren v r h in
    record {
      no_bare = blank_stops v r h;
      no_or = consume-missed or_word _ (b')' ∷ r) e refl ∙ ap (λ u. (false, u)) (sym e);
      no_and = consume-missed and_word _ (b')' ∷ r) e refl ∙ ap (λ u. (false, u)) (sym e);
    }

-- `both` on verdicts, one loop step at a time
pub both-or :
    (left : Bool) (v u : Verdict)
    → both ◌||◌ (both ◌||◌ (holds left) v) u ≡ both ◌||◌ (holds left) (both ◌||◌ v u)
both-or left (fails e) u = refl
both-or left (holds b) (fails e) = refl
both-or left (holds b) (holds c) = ground arith

pub both-and :
    (left : Bool) (v u : Verdict)
    → both ◌&&◌ (both ◌&&◌ (holds left) v) u ≡ both ◌&&◌ (holds left) (both ◌&&◌ v u)
both-and left (fails e) u = refl
both-and left (holds b) (fails e) = refl
both-and left (holds b) (holds c) = ground arith

abbrev pub or_turn : External → Event → ℕ → Bool → Bool × Bytes → Outcome Bool
or_turn ext ev f left p = elim p.0 [
  | true ↦ parse_and ext ev f p.1 >>= λ right u. or_loop ext ev f (left || right) u
  | false ↦ parsed left p.1
]

abbrev pub and_turn : External → Event → ℕ → Bool → Bool × Bytes → Outcome Bool
and_turn ext ev f left p = elim p.0 [
  | true ↦ parse_atom ext ev f p.1 >>= λ right u. and_loop ext ev f (left && right) u
  | false ↦ parsed left p.1
]

-- One turn of a loop, when it is known what the keyword test finds.
pub or_loop_at :
    (ext : External) (ev : Event) (f : ℕ) (left : Bool) (s : Bytes) (p : Bool × Bytes)
    → consume_keyword or_word s ≡ p
    → or_loop ext ev (suc f) left s ≡ or_turn ext ev f left p
unfolding parse_or
or_loop_at ext ev f left s p e = ap (or_turn ext ev f left) e

pub and_loop_at :
    (ext : External) (ev : Event) (f : ℕ) (left : Bool) (s : Bytes) (p : Bool × Bytes)
    → consume_keyword and_word s ≡ p
    → and_loop ext ev (suc f) left s ≡ and_turn ext ev f left p
unfolding parse_or
and_loop_at ext ev f left s p e = ap (and_turn ext ev f left) e

abbrev pub atom_turn : External → Event → ℕ → Bool → ℕ → Bytes → Outcome Bool
atom_turn ext ev f opens c t = elim opens [
  | true ↦ parse_or ext ev f t >>= λ v u. close_paren v (skip_space u)
  | false ↦ parse_cmp ext ev (c ∷ t)
]

-- An atom at a text that begins with no white space, when its first test is known.
pub parse_atom_at :
    (ext : External) (ev : Event) (f : ℕ) (c : ℕ) (t : Bytes) (opens : Bool)
    → is_space c ≡ false
    → (c == b'(') ≡ opens
    → parse_atom ext ev (suc f) (c ∷ t) ≡ atom_turn ext ev f opens c t
unfolding parse_or
parse_atom_at ext ev f c t opens solid e =
    ap
      (λ (u : Bytes). elim u [
        | [] ↦ failed unexpected_end
        | d ∷ v ↦ atom_turn ext ev f (d == b'(') d v
      ])
      (skip_space_solid c t solid)
    ∙ ap (λ (o : Bool). atom_turn ext ev f o c t) e

-- The loops see through white space in front.
pub or_loop-skip :
    (ext : External) (ev : Event) (f : ℕ) (left : Bool) (s : Bytes)
    → or_loop ext ev f left (skip_space s) ≡ or_loop ext ev f left s
unfolding parse_or
or_loop-skip ext ev zero left s = refl
or_loop-skip ext ev (suc f) left s =
    or_loop_at ext ev f left (skip_space s) _ (consume_keyword-skip or_word s)

pub and_loop-skip :
    (ext : External) (ev : Event) (f : ℕ) (left : Bool) (s : Bytes)
    → and_loop ext ev f left (skip_space s) ≡ and_loop ext ev f left s
unfolding parse_or
and_loop-skip ext ev zero left s = refl
and_loop-skip ext ev (suc f) left s =
    and_loop_at ext ev f left (skip_space s) _ (consume_keyword-skip and_word s)

-- What follows a verdict, when it is known what follows each truth value.
pub give-bind :
    (op : Bool → Bool → Bool) (v u : Verdict) (t r : Bytes) (k : Bool → Bytes → Outcome Bool)
    → ((left : Bool) → k left t ≡ give (both op (holds left) u) r)
    → (give v t >>= k) ≡ give (both op v u) r
give-bind op (fails e) u t r k h = refl
give-bind op (holds b) u t r k h = h b

pub or_turn-give :
    (left : Bool) (v u : Verdict) (t r : Bytes) (k : Bool → Bytes → Outcome Bool)
    → ((right : Bool) → k right t ≡ give (both ◌||◌ (holds (left || right)) u) r)
    → (give v t >>= k) ≡ give (both ◌||◌ (holds left) (both ◌||◌ v u)) r
or_turn-give left (fails e) u t r k h = refl
or_turn-give left (holds b) u t r k h = h b ∙ ap (λ v. give v r) (both-or left (holds b) u)

pub and_turn-give :
    (left : Bool) (v u : Verdict) (t r : Bytes) (k : Bool → Bytes → Outcome Bool)
    → ((right : Bool) → k right t ≡ give (both ◌&&◌ (holds (left && right)) u) r)
    → (give v t >>= k) ≡ give (both ◌&&◌ (holds left) (both ◌&&◌ v u)) r
and_turn-give left (fails e) u t r k h = refl
and_turn-give left (holds b) u t r k h = h b ∙ ap (λ v. give v r) (both-and left (holds b) u)

pub word_not_paren : (c : ℕ) → is_word_char c ≡ true → (c == b'(') ≡ false
unfolding is_word_char
word_not_paren c h = ground arith

pub or_false : (v : Bool) → both ◌||◌ (holds v) (holds false) ≡ holds v
or_false true = refl
or_false false = refl

pub and_true : (v : Bool) → both ◌&&◌ (holds v) (holds true) ≡ holds v
and_true true = refl
and_true false = refl

pub bind_give :
    (v : Verdict) (s : Bytes) (k : Bool → Bytes → Outcome Bool) (r : Bytes)
    → ((b : Bool) → k b s ≡ parsed b r)
    → (give v s >>= k) ≡ give v r
bind_give (fails e) s k r h = refl
bind_give (holds b) s k r h = h b

pub compare_expr-verdict :
    (ext : External) (ev : Event) (name : Bytes) (op : CmpOp) (lit s : Bytes)
    → compare_expr ext name op lit ev s ≡ give (compare_verdict ext ev name op lit) s
unfolding compare_expr compare_verdict
compare_expr-verdict ext ev name op lit s = ground arith

op_solid : (op : OpText) (r : Bytes) → skip_space (show_op op r) ≡ show_op op r
unfolding skip_space
op_solid op r = ground arith

pub skip_space_op :
    (w : Bytes) (op : OpText) (r : Bytes)
    → IsBlank w
    → skip_space (w ++ show_op op r) ≡ show_op op r
skip_space_op w op r h = skip_space-append w (show_op op r) h ∙ op_solid op r

-- White space in front of an expression makes no difference.
parse_atom-skip :
    (ext : External) (ev : Event) (f : ℕ) (s : Bytes)
    → parse_atom ext ev f (skip_space s) ≡ parse_atom ext ev f s
unfolding parse_or
parse_atom-skip ext ev zero s = refl
parse_atom-skip ext ev (suc f) s =
    ap
      (λ (u : Bytes). elim u [
        | [] ↦ failed unexpected_end
        | d ∷ v ↦ atom_turn ext ev f (d == b'(') d v
      ])
      (skip_space_idem s)

parse_and-skip :
    (ext : External) (ev : Event) (f : ℕ) (s : Bytes)
    → parse_and ext ev f (skip_space s) ≡ parse_and ext ev f s
unfolding parse_or
parse_and-skip ext ev zero s = refl
parse_and-skip ext ev (suc f) s =
    ap (λ o. o >>= λ left t. and_loop ext ev f left t) (parse_atom-skip ext ev f s)

parse_or-skip :
    (ext : External) (ev : Event) (f : ℕ) (s : Bytes)
    → parse_or ext ev f (skip_space s) ≡ parse_or ext ev f s
unfolding parse_or
parse_or-skip ext ev zero s = refl
parse_or-skip ext ev (suc f) s =
    ap (λ o. o >>= λ left t. or_loop ext ev f left t) (parse_and-skip ext ev f s)

pub parse_or-blank :
    (ext : External) (ev : Event) (f : ℕ) (w s : Bytes)
    → IsBlank w
    → parse_or ext ev f (w ++ s) ≡ parse_or ext ev f s
parse_or-blank ext ev f w s h =
    sym (parse_or-skip ext ev f (w ++ s))
    ∙ ap (parse_or ext ev f) (skip_space-append w s h)
    ∙ parse_or-skip ext ev f s
