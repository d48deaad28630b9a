-- ===== src/Expr/Lengths.antt =====
-- The lengths of the texts that Expr/Syntax writes.
use device_telemetry_ro.Prelude.{length, length-append, ℕ, ◌≤◌, ◌<◌, ◌∷◌, ◌++◌, arith}
use device_telemetry_ro.Prelude.Bytes.{Bytes}
use device_telemetry_ro.Expr.Syntax.{
  Lit, quoted, bare, OpText, Disj, disj, Disjs, no_disj, or_disj, Conj, conj, Conjs, no_conj,
  and_conj, Atom, paren, test, show_op, show_lit, show_disj, show_disjs, show_conj, show_conjs,
  show_atom,
}

length-show_op : (op : OpText) (r : Bytes) → length r ≤ length (show_op op r)
length-show_op op r = ground arith

length-show_lit : (lit : Lit) (r : Bytes) → length r ≤ length (show_lit lit r)
length-show_lit (quoted q s) r = omega (arith, length-append {0} s (q ∷ r))
length-show_lit (bare c cs) r = omega (arith, length-append {0} cs r)

length-test :
    (c : ℕ) (cs w : Bytes) (op : OpText) (v : Bytes) (lit : Lit) (r : Bytes)
    → length r < length (show_atom (test c cs w op v lit) r)
unfolding show_atom
length-test c cs w op v lit r =
    let literal : Bytes = show_lit lit r in
    let compared : Bytes = show_op op (v ++ literal) in
    omega (
      arith,
      length-append {0} cs (w ++ compared),
      length-append {0} w compared,
      length-show_op op (v ++ literal),
      length-append {0} v literal,
      length-show_lit lit r,
    )

mutual
  unfolding show_disj

  pub length-show_disj : (d : Disj) (r : Bytes) → length r < length (show_disj d r)
  length-show_disj (disj c ds) r =
      omega (arith, length-show_conj c (show_disjs ds r), length-show_disjs ds r)

  pub length-show_disjs : (ds : Disjs) (r : Bytes) → length r ≤ length (show_disjs ds r)
  length-show_disjs no_disj r = omega arith
  length-show_disjs (or_disj w o k v c ds) r =
      let s : Bytes = show_conj c (show_disjs ds r) in
      omega (
        arith,
        length-show_conj c (show_disjs ds r),
        length-show_disjs ds r,
        length-append {0} w (o ∷ k ∷ (v ++ s)),
        length-append {0} v s,
      )

  pub length-show_conj : (c : Conj) (r : Bytes) → length r < length (show_conj c r)
  length-show_conj (conj a as_) r =
      omega (arith, length-show_atom a (show_conjs as_ r), length-show_conjs as_ r)

  pub length-show_conjs : (as_ : Conjs) (r : Bytes) → length r ≤ length (show_conjs as_ r)
  length-show_conjs no_conj r = omega arith
  length-show_conjs (and_conj w a n d v x as_) r =
      let s : Bytes = show_atom x (show_conjs as_ r) in
      omega (
        arith,
        length-show_atom x (show_conjs as_ r),
        length-show_conjs as_ r,
        length-append {0} w (a ∷ n ∷ d ∷ (v ++ s)),
        length-append {0} v s,
      )

  pub length-show_atom : (a : Atom) (r : Bytes) → length r < length (show_atom a r)
  length-show_atom (paren w d v) r = omega (
    arith,
    length-append {0} w (show_disj d (v ++ b')' ∷ r)),
    length-show_disj d (v ++ b')' ∷ r),
    length-append {0} v (b')' ∷ r),
  )
  length-show_atom (test c cs w op v lit) r = length-test c cs w op v lit r
