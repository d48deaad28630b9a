-- ===== src/Expr/Syntax.antt =====
-- An abstract syntax of matcher expressions, its meaning, and its texts. This is the description
-- that the evaluator of internal/router/expr.go is held against.
use device_telemetry_ro.Prelude.{
  ◌==◌, all, ℕ, ◌≡◌, Bool, true, false, not, ◌&&◌, ◌||◌, [], ◌∷◌, ◌++◌,
}
use device_telemetry_ro.Prelude.Bytes.{Bytes}
use device_telemetry_ro.Domain.{Event}
use device_telemetry_ro.External.{External}
use device_telemetry_ro.Text.{is_space}
use device_telemetry_ro.Expr.{
  CmpOp, op_eq, op_ne, op_glob, op_gt, op_ge, op_lt, op_le, ExprError, unexpected_end, Outcome,
  parsed, failed, no_fuel, is_word_char, lower, is_quote, in_bare, compare_expr,
}

-- a literal in quotes of the given kind, or a bare one with its first byte
pub data Lit : Type 0 where
  quoted : ℕ → Bytes → Lit
  bare : ℕ → Bytes → Lit

-- the texts of the operators: `==` or `=`, `!=` or `!`, `~`, `>`, `>=`, `<`, `<=`
pub data OpText : Type 0 where
  eq_two eq_one ne_two ne_one glob gt ge lt le : OpText

-- A chain of `or` over chains of `and` over atoms, with the white space between the words. The
-- letters of a keyword may have either case.
mutual
  pub data Disj : Type 0 where
    disj : Conj → Disjs → Disj

  -- the white space in front of `or`, its letters, and the white space behind it
  pub data Disjs : Type 0 where
    no_disj : Disjs
    or_disj : Bytes → ℕ → ℕ → Bytes → Conj → Disjs → Disjs

  pub data Conj : Type 0 where
    conj : Atom → Conjs → Conj

  pub data Conjs : Type 0 where
    no_conj : Conjs
    and_conj : Bytes → ℕ → ℕ → ℕ → Bytes → Atom → Conjs → Conjs

  -- `test c cs w op v lit` compares the field with the name `c ∷ cs`; the white space `w` and `v`
  -- stands around the operator, and that of `paren` inside the parentheses
  pub data Atom : Type 0 where
    paren : Bytes → Disj → Bytes → Atom
    test : ℕ → Bytes → Bytes → OpText → Bytes → Lit → Atom

abbrev pub lit_text : Lit → Bytes
lit_text (quoted q s) = s
lit_text (bare c cs) = c ∷ cs

abbrev pub op_of : OpText → CmpOp
op_of eq_two = op_eq
op_of eq_one = op_eq
op_of ne_two = op_ne
op_of ne_one = op_ne
op_of glob = op_glob
op_of gt = op_gt
op_of ge = op_ge
op_of lt = op_lt
op_of le = op_le

-- A truth value, or the error of the first comparison that has one.
pub data Verdict : Type 0 where
  holds : Bool → Verdict
  fails : ExprError → Verdict

abbrev pub both : (Bool → Bool → Bool) → Verdict → Verdict → Verdict
both f (fails e) v = fails e
both f (holds a) (fails e) = fails e
both f (holds a) (holds b) = holds (f a b)

-- The outcome that carries a verdict, with the text left.
abbrev pub give : Verdict → Bytes → Outcome Bool
give (holds b) s = parsed b s
give (fails e) s = failed e

abbrev verdict : Outcome Bool → Verdict
verdict (parsed b s) = holds b
verdict (failed e) = fails e
verdict no_fuel = fails unexpected_end

unfoldable pub compare_verdict : External → Event → Bytes → CmpOp → Bytes → Verdict
compare_verdict ext ev name op lit = verdict (compare_expr ext name op lit ev [])

unfoldable mutual
  pub eval_disj : External → Event → Disj → Verdict
  eval_disj ext ev (disj c ds) = both ◌||◌ (eval_conj ext ev c) (eval_disjs ext ev ds)

  pub eval_disjs : External → Event → Disjs → Verdict
  eval_disjs ext ev no_disj = holds false
  eval_disjs ext ev (or_disj w o r v c ds) = both ◌||◌ (eval_conj ext ev c) (eval_disjs ext ev ds)

  pub eval_conj : External → Event → Conj → Verdict
  eval_conj ext ev (conj a as_) = both ◌&&◌ (eval_atom ext ev a) (eval_conjs ext ev as_)

  pub eval_conjs : External → Event → Conjs → Verdict
  eval_conjs ext ev no_conj = holds true
  eval_conjs ext ev (and_conj w a n d v x as_) =
      both ◌&&◌ (eval_atom ext ev x) (eval_conjs ext ev as_)

  pub eval_atom : External → Event → Atom → Verdict
  eval_atom ext ev (paren w d v) = eval_disj ext ev d
  eval_atom ext ev (test c cs w op v lit) =
      compare_verdict ext ev (c ∷ cs) (op_of op) (lit_text lit)

abbrev pub show_op : OpText → Bytes → Bytes
show_op eq_two r = b'=' ∷ b'=' ∷ r
show_op eq_one r = b'=' ∷ r
show_op ne_two r = b'!' ∷ b'=' ∷ r
show_op ne_one r = b'!' ∷ r
show_op glob r = b'~' ∷ r
show_op gt r = b'>' ∷ r
show_op ge r = b'>' ∷ b'=' ∷ r
show_op lt r = b'<' ∷ r
show_op le r = b'<' ∷ b'=' ∷ r

abbrev pub show_lit : Lit → Bytes → Bytes
show_lit (quoted q s) r = q ∷ (s ++ q ∷ r)
show_lit (bare c cs) r = c ∷ (cs ++ r)

-- The text of an expression before the text `r`.
unfoldable mutual
  pub show_disj : Disj → Bytes → Bytes
  show_disj (disj c ds) r = show_conj c (show_disjs ds r)

  pub show_disjs : Disjs → Bytes → Bytes
  show_disjs no_disj r = r
  show_disjs (or_disj w o k v c ds) r = w ++ o ∷ k ∷ (v ++ show_conj c (show_disjs ds r))

  pub show_conj : Conj → Bytes → Bytes
  show_conj (conj a as_) r = show_atom a (show_conjs as_ r)

  pub show_conjs : Conjs → Bytes → Bytes
  show_conjs no_conj r = r
  show_conjs (and_conj w a n d v x as_) r = w ++ a ∷ n ∷ d ∷ (v ++ show_atom x (show_conjs as_ r))

  pub show_atom : Atom → Bytes → Bytes
  show_atom (paren w d v) r = b'(' ∷ (w ++ show_disj d (v ++ b')' ∷ r))
  show_atom (test c cs w op v lit) r = c ∷ (cs ++ (w ++ show_op op (v ++ show_lit lit r)))

abbrev pub IsBlank : Bytes → Type 0
IsBlank w = all is_space w ≡ true

-- White space of one byte or more.
abbrev pub IsGap : Bytes → Type 0
IsGap [] = ⊥
IsGap (c ∷ w) = (is_space c ≡ true) × IsBlank w

-- A quoted literal does not hold its quote. A bare one begins with no quote, and holds neither white
-- space nor a closing parenthesis.
abbrev pub IsLit : Lit → Type 0
IsLit (quoted q s) = (is_quote q ≡ true) × (all (λ d. not (d == q)) s ≡ true)
IsLit (bare c cs) = (is_quote c ≡ false) × (in_bare c ≡ true) × (all in_bare cs ≡ true)

-- the byte behind an operator
abbrev pub first_byte : Bytes → Lit → ℕ
first_byte [] (quoted q s) = q
first_byte [] (bare c cs) = c
first_byte (a ∷ v) lit = a

-- The names are words, `or` and `and` stand between white space, and no `=` follows an operator.
abbrev mutual
  pub IsDisj : Disj → Type 0
  IsDisj (disj c ds) = IsConj c × IsDisjs ds

  pub IsDisjs : Disjs → Type 0
  IsDisjs no_disj = Unit
  IsDisjs (or_disj w o k v c ds) =
      (IsGap w × IsGap v × (lower o ≡ b'o') × (lower k ≡ b'r')) × IsConj c × IsDisjs ds

  pub IsConj : Conj → Type 0
  IsConj (conj a as_) = IsAtom a × IsConjs as_

  pub IsConjs : Conjs → Type 0
  IsConjs no_conj = Unit
  IsConjs (and_conj w a n d v x as_) =
      (IsGap w × IsGap v × (lower a ≡ b'a') × (lower n ≡ b'n') × (lower d ≡ b'd'))
      × IsAtom x
      × IsConjs as_

  pub IsAtom : Atom → Type 0
  IsAtom (paren w d v) = IsBlank w × IsDisj d × IsBlank v
  IsAtom (test c cs w op v lit) =
      ((is_word_char c ≡ true) × (all is_word_char cs ≡ true))
      × (IsBlank w × IsBlank v)
      × (first_byte v lit == b'=' ≡ false)
      × IsLit lit
