-- ===== src/Expr.antt =====
-- internal/router/expr.go: the matcher expressions of a rule, a recursive-descent evaluator. The
-- parser's position is the text that is left. Each of the mutually recursive methods takes fuel;
-- `fuel_for` is what matchExpr gives, and Expr/Fuel shows that it never runs out.
pub mod Scan
pub mod Fuel
pub mod Syntax
pub mod Tokens
pub mod Meaning
pub mod Lengths
pub mod Turns
use device_telemetry_ro.Prelude.{
  ◌==◌, if◌then◌else◌, length, drop, ℕ, zero, suc, ◌+◌, ◌*◌, Bool, true, false, not, ◌&&◌, ◌||◌,
  Option, none, some, [], ◌∷◌,
}
use device_telemetry_ro.Prelude.Int.{pos}
use device_telemetry_ro.Prelude.Bytes.{Bytes, codes, eqb}
use device_telemetry_ro.Domain.{Float64, Event}
use device_telemetry_ro.External.{External}
use device_telemetry_ro.Text.{is_space, is_upper, is_digit, is_letter, trim_space}

-- the values of `op`
pub data CmpOp : Type 0 where
  op_eq op_ne op_glob op_gt op_ge op_lt op_le : CmpOp

pub data ExprError : Type 0 where
  unexpected_end missing_paren expected_field expected_operator : ExprError
  unterminated_string expected_literal not_numeric : ExprError
  unknown_field : Bytes → ExprError

-- The value that a method returns with the text left, its error, or the end of the fuel.
pub data Outcome {ℓ} (A : Type ℓ) : Type ℓ where
  parsed : A → Bytes → Outcome A
  failed : ExprError → Outcome A
  no_fuel : Outcome A

infixl 5 ◌>>=◌
abbrev pub ◌>>=◌ {ℓ κ} : {A : Type ℓ} {B : Type κ} → Outcome A → (A → Bytes → Outcome B) → Outcome B
parsed a s >>= f = f a s
failed e >>= f = failed e
no_fuel >>= f = no_fuel

unfoldable pub is_word_char : ℕ → Bool
is_word_char c = is_letter c || is_digit c || c == b'_'

unfoldable pub skip_space : Bytes → Bytes
skip_space [] = []
skip_space (c ∷ s) = let rest = skip_space s in if is_space c then rest else c ∷ s

abbrev pub lower : ℕ → ℕ
lower c = if is_upper c then c + 32 else c

-- strings.EqualFold of a prefix with a keyword in lower case: what is left behind it. Of the letters
-- of the two keywords none has a case variant outside ASCII.
unfoldable pub after_keyword : Bytes → Bytes → Option Bytes
after_keyword [] s = some s
after_keyword (k ∷ ks) [] = none
after_keyword (k ∷ ks) (c ∷ s) = if lower c == k then after_keyword ks s else none

-- the keyword ends the text, or a byte that is no word character follows
unfoldable pub at_word_end : Bytes → Bool
unfolding is_word_char
at_word_end [] = true
at_word_end (c ∷ s) = not (is_word_char c)

abbrev keyword_rest : Bytes → Option Bytes → Bool × Bytes
keyword_rest t none = (false, t)
keyword_rest t (some r) = if at_word_end r then (true, skip_space r) else (false, t)

-- `consumeKeyword` over `peekKeyword`, which skips white space also where it finds no keyword
unfoldable pub consume_keyword : Bytes → Bytes → Bool × Bytes
unfolding skip_space after_keyword at_word_end
consume_keyword kw s = let t = skip_space s in keyword_rest t (after_keyword kw t)

-- the longest prefix whose bytes pass a test, and what is left
unfoldable pub span : (ℕ → Bool) → Bytes → Bytes × Bytes
span p [] = ([], [])
span p (c ∷ s) = let (front, rest) = span p s in if p c then (c ∷ front, rest) else ([], c ∷ s)

abbrev pub nonempty : ExprError → Bytes × Bytes → Outcome Bytes
nonempty e ([], s) = failed e
nonempty e (c ∷ w, s) = parsed (c ∷ w) s

unfoldable pub parse_ident : Bytes → Outcome Bytes
unfolding skip_space span is_word_char
parse_ident s = nonempty expected_field (span is_word_char (skip_space s))

-- the switch on two bytes, then the one on a single byte
abbrev starts : ℕ → Bytes → Bool
starts b [] = false
starts b (c ∷ s) = c == b

unfoldable pub parse_op : Bytes → Outcome CmpOp
parse_op [] = failed expected_operator
parse_op (a ∷ s) =
    if a == b'=' && starts b'=' s
    then parsed op_eq (drop 1 s)
    else if a == b'!' && starts b'=' s
    then parsed op_ne (drop 1 s)
    else if a == b'>' && starts b'=' s
    then parsed op_ge (drop 1 s)
    else if a == b'<' && starts b'=' s
    then parsed op_le (drop 1 s)
    else if a == b'~'
    then parsed op_glob s
    else if a == b'='
    then parsed op_eq s
    else if a == b'!'
    then parsed op_ne s
    else if a == b'>'
    then parsed op_gt s
    else if a == b'<'
    then parsed op_lt s
    else failed expected_operator

abbrev pub close_quote : Bytes × Bytes → Outcome Bytes
close_quote (lit, []) = failed unterminated_string
close_quote (lit, q ∷ s) = parsed lit s

abbrev pub is_quote : ℕ → Bool
is_quote c = c == b'"' || c == b'\''

abbrev pub in_bare : ℕ → Bool
in_bare c = not (is_space c) && not (c == b')')

pub literal_at : Bytes → Outcome Bytes
literal_at [] = failed expected_literal
literal_at (c ∷ s) =
    if is_quote c
    then close_quote (span (λ d. not (d == c)) s)
    else nonempty expected_literal (span in_bare (c ∷ s))

unfoldable pub parse_literal : Bytes → Outcome Bytes
unfolding skip_space span literal_at
parse_literal s = literal_at (skip_space s)

module _ (ext : External) where
  unfoldable pub string_compare : CmpOp → Bytes → Bytes → Bool
  string_compare op_eq got want = eqb got want
  string_compare op_ne got want = not (eqb got want)
  string_compare op_glob got want = elim (ext.path_match want got) [ none ↦ false | some b ↦ b ]
  string_compare _ got want = false

  -- the difference without its sign is below 1e-9
  abbrev near : Float64 → Bool
  near diff =
      let magnitude =
        if ext.lt_float diff (ext.constant (pos 0) 0) then ext.neg_float diff else diff in
      ext.lt_float magnitude (ext.constant (pos 1) 9)

  unfoldable pub value_compare : CmpOp → Float64 → Float64 → Bool
  value_compare op_eq got want = ext.eq_float got want
  value_compare op_ne got want = not (ext.eq_float got want)
  value_compare op_glob got want = near (ext.sub_float got want)
  value_compare op_gt got want = ext.lt_float want got
  value_compare op_ge got want = ext.le_float want got
  value_compare op_lt got want = ext.lt_float got want
  value_compare op_le got want = ext.le_float got want

  -- `compareExpr`, with the text left handed on
  unfoldable pub compare_expr : Bytes → CmpOp → Bytes → Event → Bytes → Outcome Bool
  unfolding string_compare value_compare
  compare_expr name op lit ev s =
      if eqb name (codes "metric")
      then parsed (string_compare op ev.metric lit) s
      else if eqb name (codes "device")
      then parsed (string_compare op ev.device_id lit) s
      else if eqb name (codes "unit")
      then parsed (string_compare op ev.unit lit) s
      else if eqb name (codes "value")
      then elim (ext.parse_float lit) [
        | none ↦ failed not_numeric
        | some v ↦ parsed (value_compare op ev.value v) s
      ]
      else failed (unknown_field name)

  unfoldable pub parse_cmp : Event → Bytes → Outcome Bool
  parse_cmp ev s = parse_ident s >>= λ name s₁. parse_op (skip_space s₁) >>= λ op s₂.
      parse_literal (skip_space s₂) >>= λ lit s₃. compare_expr name op lit ev s₃

abbrev pub or_word : Bytes
or_word = codes "or"

abbrev pub and_word : Bytes
and_word = codes "and"

abbrev pub close_paren : Bool → Bytes → Outcome Bool
close_paren v [] = failed missing_paren
close_paren v (c ∷ s) = if c == b')' then parsed v s else failed missing_paren

unfoldable mutual
  pub parse_or : External → Event → ℕ → Bytes → Outcome Bool
  parse_or ext ev zero s = no_fuel
  parse_or ext ev (suc f) s = parse_and ext ev f s >>= λ left t. or_loop ext ev f left t

  pub or_loop : External → Event → ℕ → Bool → Bytes → Outcome Bool
  or_loop ext ev zero left s = no_fuel
  or_loop ext ev (suc f) left s =
      let (more, t) = consume_keyword or_word s in
      elim more [
        | true ↦ parse_and ext ev f t >>= λ right u. or_loop ext ev f (left || right) u
        | false ↦ parsed left t
      ]

  pub parse_and : External → Event → ℕ → Bytes → Outcome Bool
  parse_and ext ev zero s = no_fuel
  parse_and ext ev (suc f) s = parse_atom ext ev f s >>= λ left t. and_loop ext ev f left t

  pub and_loop : External → Event → ℕ → Bool → Bytes → Outcome Bool
  and_loop ext ev zero left s = no_fuel
  and_loop ext ev (suc f) left s =
      let (more, t) = consume_keyword and_word s in
      elim more [
        | true ↦ parse_atom ext ev f t >>= λ right u. and_loop ext ev f (left && right) u
        | false ↦ parsed left t
      ]

  pub parse_atom : External → Event → ℕ → Bytes → Outcome Bool
  parse_atom ext ev zero s = no_fuel
  parse_atom ext ev (suc f) s = elim (skip_space s) [
    | [] ↦ failed unexpected_end
    | c ∷ t ↦ elim (c == b'(') [
      | true ↦ parse_or ext ev f t >>= λ v u. close_paren v (skip_space u)
      | false ↦ parse_cmp ext ev (c ∷ t)
    ]
  ]

-- four levels of calls for each byte
unfoldable pub fuel_for : Bytes → ℕ
fuel_for s = 4 * length s + 3

abbrev pub whole_match : Outcome Bool → Bool
whole_match (parsed v s) = elim (skip_space s) [ [] ↦ v | c ∷ t ↦ false ]
whole_match (failed e) = false
whole_match no_fuel = false

abbrev pub match_trimmed : External → Event → Bytes → Bool
match_trimmed ext ev [] = true
match_trimmed ext ev (c ∷ s) = whole_match (parse_or ext ev (fuel_for (c ∷ s)) (c ∷ s))

-- `matchExpr`
unfoldable pub match_expr : External → Bytes → Event → Bool
unfolding trim_space skip_space fuel_for
match_expr ext expr ev = match_trimmed ext ev (trim_space expr)
