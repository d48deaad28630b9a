-- ===== src/Expr/Tokens.antt =====
-- internal/router/expr.go: the scanner on the tokens that Expr/Syntax writes.
use device_telemetry_ro.Prelude.{
  ◌==◌, Bool-cases, &&-eq-true, all, ℕ, ◌≤◌, ◌≡◌, refl, sym, ap, ◌∙◌, inl, inr, Bool, true, false,
  not, none, some, [], ◌∷◌, ◌++◌, arith,
}
use device_telemetry_ro.Prelude.Bytes.{Bytes}
use device_telemetry_ro.Text.{is_space}
use device_telemetry_ro.Expr.{
  parsed, is_word_char, skip_space, lower, after_keyword, at_word_end, consume_keyword, span,
  parse_ident, parse_op, in_bare, parse_literal, or_word, and_word,
}
use device_telemetry_ro.Expr.Syntax.{
  Lit, quoted, bare, OpText, lit_text, op_of, show_op, show_lit, IsBlank, IsGap, IsLit, first_byte,
}

pub skip_space_solid : (c : ℕ) (s : Bytes) → is_space c ≡ false → skip_space (c ∷ s) ≡ c ∷ s
unfolding skip_space
skip_space_solid c s h = rw h

pub skip_space-append : (w s : Bytes) → all is_space w ≡ true → skip_space (w ++ s) ≡ skip_space s
unfolding skip_space
skip_space-append [] s h = refl
skip_space-append (c ∷ w) s h = ground (arith, skip_space-append w s)

pub skip_space-gap : (w s : Bytes) → IsGap w → skip_space (w ++ s) ≡ skip_space s
skip_space-gap [] s h = elim h [ ]
skip_space-gap (c ∷ w) s h = skip_space-append (c ∷ w) s (ground arith)

pub skip_space_idem : (s : Bytes) → skip_space (skip_space s) ≡ skip_space s
unfolding skip_space
skip_space_idem [] = refl
skip_space_idem (c ∷ s) = elim (Bool-cases (is_space c)) [
  | inl e ↦ rw e (skip_space_idem s)
  | inr e ↦ rw e (rw e)
]

pub consume_keyword-skip : (kw s : Bytes) → consume_keyword kw (skip_space s) ≡ consume_keyword kw s
unfolding consume_keyword
consume_keyword-skip kw s = rw (skip_space_idem s)

pub word_not_space : (c : ℕ) → is_word_char c ≡ true → is_space c ≡ false
unfolding is_word_char
word_not_space c h = ground arith

pub space_not_word : (c : ℕ) → is_space c ≡ true → is_word_char c ≡ false
unfolding is_word_char
space_not_word c h = ground arith

consume-found :
    (kw s t u : Bytes)
    → skip_space s ≡ t
    → after_keyword kw t ≡ some u
    → at_word_end u ≡ true
    → consume_keyword kw s ≡ (true, skip_space u)
unfolding consume_keyword
consume-found kw s t u e f g = rw e (rw f (rw g refl))

pub consume-missed :
    (kw s t : Bytes)
    → skip_space s ≡ t
    → after_keyword kw t ≡ none
    → consume_keyword kw s ≡ (false, t)
unfolding consume_keyword
consume-missed kw s t e f = rw e (rw f refl)

gap-at_word_end : (v s : Bytes) → IsGap v → at_word_end (v ++ s) ≡ true
unfolding at_word_end
gap-at_word_end [] s h = elim h [ ]
gap-at_word_end (c ∷ v) s h = rw (space_not_word c h.0) refl

letter_solid : (c k : ℕ) → lower c ≡ k → 97 ≤ k → k ≤ 122 → is_space c ≡ false
letter_solid c k e h l = ground arith

-- white space in front of a letter
skip_to_letter :
    (w s : Bytes) (c k : ℕ)
    → IsGap w
    → lower c ≡ k
    → 97 ≤ k
    → k ≤ 122
    → skip_space (w ++ c ∷ s) ≡ c ∷ s
skip_to_letter w s c k g e h l =
    skip_space-gap w (c ∷ s) g ∙ skip_space_solid c s (letter_solid c k e h l)

after-or :
    (o k : ℕ) (s : Bytes)
    → lower o ≡ b'o'
    → lower k ≡ b'r'
    → after_keyword or_word (o ∷ k ∷ s) ≡ some s
unfolding after_keyword
after-or o k s e f = ground arith

after-and :
    (a n d : ℕ) (s : Bytes)
    → lower a ≡ b'a'
    → lower n ≡ b'n'
    → lower d ≡ b'd'
    → after_keyword and_word (a ∷ n ∷ d ∷ s) ≡ some s
unfolding after_keyword
after-and a n d s e f g = ground arith

after-and_at_or : (o : ℕ) (s : Bytes) → lower o ≡ b'o' → after_keyword and_word (o ∷ s) ≡ none
unfolding after_keyword
after-and_at_or o s e = ground arith

pub consume-or :
    (w v s : Bytes) (o k : ℕ)
    → IsGap w × IsGap v × (lower o ≡ b'o') × (lower k ≡ b'r')
    → consume_keyword or_word (w ++ o ∷ k ∷ (v ++ s)) ≡ (true, skip_space s)
consume-or w v s o k (g, h, e, f) =
    consume-found or_word _ (o ∷ k ∷ (v ++ s)) (v ++ s)
      (skip_to_letter w (k ∷ (v ++ s)) o b'o' g e (omega arith) (omega arith))
      (after-or o k (v ++ s) e f) (gap-at_word_end v s h)
    ∙ ap (λ u. (true, u)) (skip_space-gap v s h)

pub consume-and-at_or :
    (w s : Bytes) (o : ℕ)
    → IsGap w
    → lower o ≡ b'o'
    → consume_keyword and_word (w ++ o ∷ s) ≡ (false, skip_space (w ++ o ∷ s))
consume-and-at_or w s o g e =
    let t = skip_to_letter w s o b'o' g e (omega arith) (omega arith) in
    consume-missed and_word (w ++ o ∷ s) (o ∷ s) t (after-and_at_or o s e)
    ∙ ap (λ u. (false, u)) (sym t)

pub consume-and :
    (w v s : Bytes) (a n d : ℕ)
    → IsGap w × IsGap v × (lower a ≡ b'a') × (lower n ≡ b'n') × (lower d ≡ b'd')
    → consume_keyword and_word (w ++ a ∷ n ∷ d ∷ (v ++ s)) ≡ (true, skip_space s)
consume-and w v s a n d (g, h, e, f, l) =
    consume-found and_word _ (a ∷ n ∷ d ∷ (v ++ s)) (v ++ s)
      (skip_to_letter w (n ∷ d ∷ (v ++ s)) a b'a' g e (omega arith) (omega arith))
      (after-and a n d (v ++ s) e f l) (gap-at_word_end v s h)
    ∙ ap (λ u. (true, u)) (skip_space-gap v s h)

-- the text ends, or goes on with a byte that fails the test
abbrev pub stops : (ℕ → Bool) → Bytes → Bool
stops p [] = true
stops p (c ∷ s) = not (p c)

span-all :
    (p : ℕ → Bool) (xs r : Bytes) → all p xs ≡ true → stops p r ≡ true → span p (xs ++ r) ≡ (xs, r)
unfolding span
span-all p [] [] h k = refl
span-all p [] (c ∷ r) h k = ground arith
span-all p (x ∷ xs) r h k =
    let (hx, hxs) = &&-eq-true (p x) (all p xs) h in rw (span-all p xs r hxs k) (rw hx)

op-stops : (op : OpText) (w r : Bytes) → IsBlank w → stops is_word_char (w ++ show_op op r) ≡ true
unfolding is_word_char
op-stops op [] r h = ground arith
op-stops op (a ∷ w) r h = rw (space_not_word a (&&-eq-true (is_space a) (all is_space w) h).0) refl

pub parse_ident-word :
    (c : ℕ) (cs w : Bytes) (op : OpText) (r : Bytes)
    → is_word_char c ≡ true
    → all is_word_char cs ≡ true
    → IsBlank w
    → parse_ident (c ∷ (cs ++ (w ++ show_op op r))) ≡ parsed (c ∷ cs) (w ++ show_op op r)
unfolding parse_ident
parse_ident-word c cs w op r hc hcs h =
    rw (word_not_space c hc)
      (rw (span-all is_word_char (c ∷ cs) (w ++ show_op op r) (ground arith) (op-stops op w r h)))

parse_op-before :
    (op : OpText) (x : ℕ) (r : Bytes)
    → x == b'=' ≡ false
    → parse_op (show_op op (x ∷ r)) ≡ parsed (op_of op) (x ∷ r)
unfolding parse_op
parse_op-before op x r h = ground arith

pub parse_op-show :
    (op : OpText) (v : Bytes) (lit : Lit) (r : Bytes)
    → first_byte v lit == b'=' ≡ false
    → parse_op (show_op op (v ++ show_lit lit r)) ≡ parsed (op_of op) (v ++ show_lit lit r)
parse_op-show op [] (quoted q s) r h = parse_op-before op q (s ++ q ∷ r) h
parse_op-show op [] (bare c cs) r h = parse_op-before op c (cs ++ r) h
parse_op-show op (a ∷ v) lit r h = parse_op-before op a (v ++ show_lit lit r) h

-- A literal begins with no white space.
pub lit_solid : (lit : Lit) (r : Bytes) → IsLit lit → skip_space (show_lit lit r) ≡ show_lit lit r
lit_solid (quoted q s) r h = skip_space_solid q (s ++ q ∷ r) (ground arith)
lit_solid (bare c cs) r h = skip_space_solid c (cs ++ r) (ground arith)

own_quote : (q : ℕ) → not (not (q == q)) ≡ true
own_quote q = ground arith

pub parse_literal-show :
    (lit : Lit) (r : Bytes)
    → IsLit lit
    → stops in_bare r ≡ true
    → parse_literal (show_lit lit r) ≡ parsed (lit_text lit) r
unfolding parse_literal
parse_literal-show (quoted q s) r (k, h) e =
    rw (lit_solid (quoted q s) r (k, h))
      (rw k (rw (span-all (λ d. not (d == q)) s (q ∷ r) h (own_quote q)) refl))
parse_literal-show (bare c cs) r (k, h, hs) e =
    rw (lit_solid (bare c cs) r (k, h, hs))
      (rw k (rw (span-all in_bare (c ∷ cs) r (ground arith) e) refl))
