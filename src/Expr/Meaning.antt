-- ===== src/Expr/Meaning.antt =====
-- internal/router/expr.go: the evaluator on the texts of expressions, and their meaning.
use device_telemetry_ro.Prelude.{
  length, length-append, ℕ, zero, suc, ◌+◌, ◌*◌, ◌≤◌, ◌<◌, ◌≡◌, refl, sym, ap, ◌∙◌, Bool, true,
  false, ◌&&◌, ◌||◌, [], ◌∷◌, ◌++◌, arith,
}
use device_telemetry_ro.Prelude.Bytes.{Bytes}
use device_telemetry_ro.Domain.{Event}
use device_telemetry_ro.External.{External}
use device_telemetry_ro.Text.{trim_space}
use device_telemetry_ro.Expr.{
  ◌>>=◌, skip_space, consume_keyword, in_bare, parse_cmp, and_word, close_paren, parse_or, or_loop,
  parse_and, and_loop, parse_atom, fuel_for, whole_match, match_trimmed, match_expr,
}
use device_telemetry_ro.Expr.Syntax.{
  Lit, OpText, Disj, disj, Disjs, no_disj, or_disj, Conj, conj, Conjs, no_conj, and_conj, Atom,
  paren, test, lit_text, op_of, Verdict, holds, fails, both, give, compare_verdict, eval_disj,
  eval_disjs, eval_conj, eval_conjs, eval_atom, show_op, show_lit, show_disj, show_disjs, show_conj,
  show_conjs, show_atom, IsBlank, IsGap, IsDisj, IsDisjs, IsConj, IsConjs, IsAtom,
}
use device_telemetry_ro.Expr.Tokens.{
  skip_space_solid, skip_space-append, word_not_space, consume-or, consume-and-at_or, consume-and,
  stops, parse_ident-word, parse_op-show, lit_solid, parse_literal-show,
}
use device_telemetry_ro.Expr.Lengths.{length-show_disj, length-show_conj, length-show_atom}
use device_telemetry_ro.Expr.Turns.{
  Closes, Closes-end, skip_to_paren, Closes-paren, or_loop_at, and_loop_at, parse_atom_at,
  or_loop-skip, give-bind, or_turn-give, and_turn-give, word_not_paren, or_false, and_true,
  bind_give, compare_expr-verdict, skip_space_op, parse_or-blank,
}

-- Behind a blank, no bare literal goes on.
gap-stops : (w s : Bytes) → IsGap w → stops in_bare (w ++ s) ≡ true
gap-stops [] s h = elim h [ ]
gap-stops (c ∷ w) s h = ground arith

conjs-stops :
    (as_ : Conjs) (t : Bytes)
    → IsConjs as_
    → stops in_bare t ≡ true
    → stops in_bare (show_conjs as_ t) ≡ true
unfolding show_disj
conjs-stops no_conj t h e = e
conjs-stops (and_conj w a n d v x as_) t h e =
    gap-stops w (a ∷ n ∷ d ∷ (v ++ show_atom x (show_conjs as_ t))) h.0.0

disjs-stops :
    (ds : Disjs) (r : Bytes) → IsDisjs ds → Closes r → stops in_bare (show_disjs ds r) ≡ true
unfolding show_disj
disjs-stops no_disj r h k = k.no_bare
disjs-stops (or_disj w o l v c ds) r h k =
    gap-stops w (o ∷ l ∷ (v ++ show_conj c (show_disjs ds r))) h.0.0

-- What follows a conjunction is no `and`.
and_stops :
    (ds : Disjs) (r : Bytes)
    → IsDisjs ds
    → Closes r
    → consume_keyword and_word (show_disjs ds r) ≡ (false, skip_space (show_disjs ds r))
unfolding show_disj
and_stops no_disj r h k = k.no_and
and_stops (or_disj w o l v c ds) r h k =
    consume-and-at_or w (l ∷ (v ++ show_conj c (show_disjs ds r))) o h.0.0 h.0.2

module _ (ext : External) (ev : Event) where
  parse_cmp-show :
      (c : ℕ) (cs w : Bytes) (op : OpText) (v : Bytes) (lit : Lit) (r : Bytes)
      → IsAtom (test c cs w op v lit)
      → stops in_bare r ≡ true
      → parse_cmp ext ev (show_atom (test c cs w op v lit) r)
        ≡ give (compare_verdict ext ev (c ∷ cs) (op_of op) (lit_text lit)) r
  unfolding parse_cmp show_atom
  parse_cmp-show c cs w op v lit r ((hc, hcs), (hw, hv), ho, hl) e =
      let literal : Bytes = show_lit lit r in
      rw (parse_ident-word c cs w op (v ++ literal) hc hcs hw) (
        rw (skip_space_op w op (v ++ literal) hw) (
          rw (parse_op-show op v lit r ho) (
            rw (skip_space-append v literal hv) (
              rw (lit_solid lit r hl) (
                rw (parse_literal-show lit r hl e)
                  (compare_expr-verdict ext ev (c ∷ cs) (op_of op) (lit_text lit) r))))))

  -- An atom begins with no white space.
  solid_atom : (a : Atom) (r : Bytes) → IsAtom a → skip_space (show_atom a r) ≡ show_atom a r
  unfolding show_atom
  solid_atom (paren w d v) r h = skip_space_solid b'(' (w ++ show_disj d (v ++ b')' ∷ r)) refl
  solid_atom (test c cs w op v lit) r h = skip_space_solid c _ (word_not_space c h.0.0)

  solid_conj : (c : Conj) (r : Bytes) → IsConj c → skip_space (show_conj c r) ≡ show_conj c r
  unfolding show_conj
  solid_conj (conj a as_) r h = solid_atom a (show_conjs as_ r) h.0

  parenthesised :
      (x : Verdict) (v r : Bytes)
      → IsBlank v
      → (give x (skip_space (v ++ b')' ∷ r)) >>= λ b u. close_paren b (skip_space u)) ≡ give x r
  parenthesised x v r h =
      ap (λ t. give x t >>= λ b u. close_paren b (skip_space u)) (skip_to_paren v r h)
      ∙ bind_give x (b')' ∷ r) _ r (λ b. rw (skip_space_solid b')' r refl))

  mutual
    unfolding parse_or show_disj eval_disj

    disj-show :
        (d : Disj) (r : Bytes) (f : ℕ)
        → IsDisj d
        → Closes r
        → 4 * length (show_disj d r) + 3 ≤ f
        → parse_or ext ev f (show_disj d r) ≡ give (eval_disj ext ev d) (skip_space r)
    disj-show (disj c ds) r zero h k fuel = absurd (omega arith)
    disj-show (disj c ds) r (suc f) h k fuel =
        let t : Bytes = show_disjs ds r in
        rw (conj-show c t f h.0 (disjs-stops ds r h.1 k) (and_stops ds r h.1 k) (omega arith)) (
          give-bind ◌||◌ (eval_conj ext ev c) (eval_disjs ext ev ds) (skip_space t) (skip_space r) _
            λ left.
              or_loop-skip ext ev f left t
              ∙ disjs-show ds r f left h.1 k (omega (arith, length-show_conj c t)))

    disjs-show :
        (ds : Disjs) (r : Bytes) (f : ℕ) (left : Bool)
        → IsDisjs ds
        → Closes r
        → 4 * length (show_disjs ds r) + 1 ≤ f
        → or_loop ext ev f left (show_disjs ds r)
          ≡ give (both ◌||◌ (holds left) (eval_disjs ext ev ds)) (skip_space r)
    disjs-show no_disj r zero left h k fuel = absurd (omega arith)
    disjs-show no_disj r (suc f) left h k fuel =
        or_loop_at ext ev f left r (false, skip_space r) k.no_or
        ∙ ap (λ v. give v (skip_space r)) (sym (or_false left))
    disjs-show (or_disj w o l v c ds) r zero left h k fuel = absurd (omega arith)
    disjs-show (or_disj w o l v c ds) r (suc f) left h k fuel =
        let t : Bytes = show_disjs ds r in
        let s : Bytes = show_conj c t in
        let tail : Bytes = o ∷ l ∷ (v ++ s) in
        or_loop_at ext ev f left (w ++ tail) (true, s)
          (consume-or w v s o l h.0 ∙ ap (λ u. (true, u)) (solid_conj c t h.1))
        ∙ rw
            (conj-show c t f h.1 (disjs-stops ds r h.2 k) (and_stops ds r h.2 k)
              (omega (arith, length-append {0} w tail, length-append {0} v s)))
            (or_turn-give left (eval_conj ext ev c) (eval_disjs ext ev ds) (skip_space t)
              (skip_space r) _
              λ right.
                or_loop-skip ext ev f (left || right) t
                ∙ disjs-show ds r f (left || right) h.2 k (
                    omega (
                      arith,
                      length-show_conj c t,
                      length-append {0} w tail,
                      length-append {0} v s,
                    )))

    conj-show :
        (c : Conj) (t : Bytes) (f : ℕ)
        → IsConj c
        → stops in_bare t ≡ true
        → consume_keyword and_word t ≡ (false, skip_space t)
        → 4 * length (show_conj c t) + 2 ≤ f
        → parse_and ext ev f (show_conj c t) ≡ give (eval_conj ext ev c) (skip_space t)
    conj-show (conj a as_) t zero h e k fuel = absurd (omega arith)
    conj-show (conj a as_) t (suc f) h e k fuel =
        let u : Bytes = show_conjs as_ t in
        rw (atom-show a u f h.0 (conjs-stops as_ t h.1 e) (omega arith)) (
          give-bind ◌&&◌ (eval_atom ext ev a) (eval_conjs ext ev as_) u (skip_space t) _
            λ left. conjs-show as_ t f left h.1 e k (omega (arith, length-show_atom a u)))

    conjs-show :
        (as_ : Conjs) (t : Bytes) (f : ℕ) (left : Bool)
        → IsConjs as_
        → stops in_bare t ≡ true
        → consume_keyword and_word t ≡ (false, skip_space t)
        → 4 * length (show_conjs as_ t) + 1 ≤ f
        → and_loop ext ev f left (show_conjs as_ t)
          ≡ give (both ◌&&◌ (holds left) (eval_conjs ext ev as_)) (skip_space t)
    conjs-show no_conj t zero left h e k fuel = absurd (omega arith)
    conjs-show no_conj t (suc f) left h e k fuel =
        and_loop_at ext ev f left t (false, skip_space t) k
        ∙ ap (λ v. give v (skip_space t)) (sym (and_true left))
    conjs-show (and_conj w a n d v x as_) t zero left h e k fuel = absurd (omega arith)
    conjs-show (and_conj w a n d v x as_) t (suc f) left h e k fuel =
        let u : Bytes = show_conjs as_ t in
        let s : Bytes = show_atom x u in
        let tail : Bytes = a ∷ n ∷ d ∷ (v ++ s) in
        and_loop_at ext ev f left (w ++ tail) (true, s)
          (consume-and w v s a n d h.0 ∙ ap (λ z. (true, z)) (solid_atom x u h.1))
        ∙ rw
            (atom-show x u f h.1 (conjs-stops as_ t h.2 e)
              (omega (arith, length-append {0} w tail, length-append {0} v s)))
            (and_turn-give left (eval_atom ext ev x) (eval_conjs ext ev as_) u (skip_space t) _
              λ right. conjs-show as_ t f (left && right) h.2 e k (
                omega
                  (arith, length-show_atom x u, length-append {0} w tail, length-append {0} v s)))

    atom-show :
        (a : Atom) (r : Bytes) (f : ℕ)
        → IsAtom a
        → stops in_bare r ≡ true
        → 4 * length (show_atom a r) + 1 ≤ f
        → parse_atom ext ev f (show_atom a r) ≡ give (eval_atom ext ev a) r
    atom-show (paren w d v) r zero h e fuel = absurd (omega arith)
    atom-show (paren w d v) r (suc f) h e fuel =
        let s : Bytes = show_disj d (v ++ b')' ∷ r) in
        parse_atom_at ext ev f b'(' (w ++ s) true refl refl
        ∙ ap (λ o. o >>= λ b u. close_paren b (skip_space u))
            (parse_or-blank ext ev f w s h.0
              ∙ disj-show d (v ++ b')' ∷ r) f h.1 (Closes-paren v r h.2)
                  (omega (arith, length-append {0} w s)))
        ∙ parenthesised (eval_disj ext ev d) v r h.2
    atom-show (test c cs w op v lit) r zero h e fuel = absurd (omega arith)
    atom-show (test c cs w op v lit) r (suc f) h e fuel =
        parse_atom_at ext ev f c (cs ++ (w ++ show_op op (v ++ show_lit lit r))) false
          (word_not_space c h.0.0) (word_not_paren c h.0.0)
        ∙ parse_cmp-show c cs w op v lit r h e

abbrev pub accepts : Verdict → Bool
accepts (holds b) = b
accepts (fails e) = false

whole_match-give : (v : Verdict) → whole_match (give v []) ≡ accepts v
unfolding skip_space
whole_match-give (holds b) = refl
whole_match-give (fails e) = refl

match_trimmed-cons :
    (ext : External) (ev : Event) (s : Bytes)
    → 0 < length s
    → match_trimmed ext ev s ≡ whole_match (parse_or ext ev (fuel_for s) s)
match_trimmed-cons ext ev [] h = elim h [ ]
match_trimmed-cons ext ev (c ∷ s) h = refl

-- An expression matches an event exactly when its meaning is true, where `or` binds weaker than `and`
-- and an error anywhere is no match. The text may have any white space around it, inside parentheses
-- and around operators, keywords in any case between white space, names of word characters, and
-- literals bare or in either quote that do not hold the bytes that would end them; no `=` stands
-- directly behind an operator.
pub match_expr-show :
    (ext : External) (ev : Event) (d : Disj) (expr : Bytes)
    → IsDisj d
    → trim_space expr ≡ show_disj d []
    → match_expr ext expr ev ≡ accepts (eval_disj ext ev d)
unfolding match_expr
match_expr-show ext ev d expr h e =
    ap (match_trimmed ext ev) e
    ∙ match_trimmed-cons ext ev (show_disj d []) (length-show_disj d [])
    ∙ ap whole_match (
        disj-show ext ev d [] (fuel_for (show_disj d [])) h Closes-end
          (unfold fuel_for in omega arith))
    ∙ whole_match-give (eval_disj ext ev d)
