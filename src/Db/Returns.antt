-- ===== src/Db/Returns.antt =====
-- What a run of statements that returns a result has done to the tables, for internal/store.
use device_telemetry_ro.Prelude.Bytes.{Bytes}
use device_telemetry_ro.Domain.Errors.{Error, Result, ok, err}
use device_telemetry_ro.Db.{
  ◌>>=◌, Tables, Sequences, World, world, Exec, continue, pure, rescue, catch, with_faults,
  statement, read, query, outcome_of, updated, update, inserted, insert, ended, in_tx,
}
use device_telemetry_ro.Prelude.{
  ℕ, ◌≡◌, refl, sym, ap, subst, ◌≢◌, ◌⊎◌, inl, inr, Option, none, some, List, [], ◌∷◌,
}

-- Both parts of what a run gives.
pub outcome-inj {ℓ} :
    {A : Type ℓ} {r s : Result A} {v w : World}
    → ◌≡◌ {A = Result A × World} (r, v) (s, w)
    → (r ≡ s) × (v.tables ≡ w.tables)
outcome-inj h = (ap (λ x. x.0) h, ap (λ x. x.1.tables) h)

err≢ok {ℓ} : {A : Type ℓ} {e : Error} {a : A} → err e ≢ ok a
err≢ok q = cc

module _ {ℓ} {A : Type ℓ} where
  pub ok-inj : {a b : A} → ok a ≡ ok b → a ≡ b
  ok-inj h = cc

  pub pure-returns :
      {a b : A} (v : World) {w : World} → pure a v ≡ (ok b, w) → (a ≡ b) × (v.tables ≡ w.tables)
  unfolding pure
  pure-returns v h = let (r, t) = outcome-inj h in (ok-inj r, t)

  with_faults-returns :
      (m : Exec A) (t : Tables) (s : Sequences) (fs : List (Option Bytes)) {a : A} {w : World}
      → with_faults m t s fs ≡ (ok a, w)
      → (v : List (Option Bytes)) × (m (world t s v) ≡ (ok a, w))
  with_faults-returns m t s [] h = ([], h)
  with_faults-returns m t s (none ∷ fs) h = (fs, h)
  with_faults-returns m t s (some text ∷ fs) h = absurd (err≢ok (outcome-inj h).0)

  pub query-returns :
      (f : Tables → A) (v : World) {w : World} {a : A}
      → query f v ≡ (ok a, w)
      → (f v.tables ≡ a) × (v.tables ≡ w.tables)
  unfolding query statement
  query-returns f v h =
      let (fs, e) = with_faults-returns (read f) v.tables v.sequences v.faults h in
      let (r, t) = outcome-inj e in (ok-inj r, t)

  continue-returns {κ} :
      {B : Type κ} (f : A → Exec B) (r : Result A × World) {b : B} {w : World}
      → continue f r ≡ (ok b, w)
      → (a : A) × (u : World) × (r ≡ (ok a, u)) × (f a u ≡ (ok b, w))
  continue-returns f (ok a, u) h = (a, u, refl, h)
  continue-returns f (err e, u) h = absurd (err≢ok (outcome-inj h).0)

  pub bind-returns {κ} :
      {B : Type κ} (m : Exec A) (f : A → Exec B) (v : World) {w : World} {b : B}
      → (m >>= f) v ≡ (ok b, w)
      → (a : A) × (u : World) × (m v ≡ (ok a, u)) × (f a u ≡ (ok b, w))
  unfolding ◌>>=◌
  bind-returns m f v h = continue-returns f (m v) h

pub update-returns :
    (f : Tables → Tables) (v : World) {w : World} {a : Unit {0}}
    → update f v ≡ (ok a, w)
    → f v.tables ≡ w.tables
unfolding update statement
update-returns f v h =
    let (fs, e) = with_faults-returns (updated f) v.tables v.sequences v.faults h in
    (outcome-inj e).1

outcome_of-returns :
    (n : ℕ) (s : Sequences) (u : World) (r : Result Tables) {id : ℕ} {w : World}
    → outcome_of n s u r ≡ (ok id, w)
    → r ≡ ok w.tables
outcome_of-returns n s u (ok t) h = ap ok (outcome-inj h).1
outcome_of-returns n s u (err e) h = let q = (outcome-inj h).0 in cc

pub insert-returns :
    (next : Sequences → Sequences × ℕ) (row : ℕ → Tables → Result Tables) (v : World) {w : World}
    {id : ℕ}
    → insert next row v ≡ (ok id, w)
    → (n : ℕ) × (row n v.tables ≡ ok w.tables)
unfolding insert statement
insert-returns next row v h =
    let (fs, e) = with_faults-returns (inserted next row) v.tables v.sequences v.faults h in
    let (s, n) = next v.sequences in
    (n, outcome_of-returns n s (world v.tables v.sequences fs) (row n v.tables) e)

ended-returns {ℓ} :
    {A : Type ℓ} (t : Tables) (r : Result A × World) {a : A} {w : World}
    → ended t r ≡ (ok a, w)
    → r ≡ (ok a, w)
ended-returns t (ok a, u) h = h
ended-returns t (err e, u) h = absurd (err≢ok (outcome-inj h).0)

statement-pure-returns {ℓ} :
    {A : Type ℓ} (b : A) (v : World) {w : World} {a : A}
    → statement (pure b) v ≡ (ok a, w)
    → (b ≡ a) × (v.tables ≡ w.tables)
unfolding statement
statement-pure-returns b v h =
    let (fs, e) = with_faults-returns (pure b) v.tables v.sequences v.faults h in
    pure-returns (world v.tables v.sequences fs) e

-- A transaction that returns a result has run its body, from the tables that it found to those that
-- it left.
pub in_tx-returns {ℓ} :
    {A : Type ℓ} (m : Exec A) (v : World) {w : World} {a : A}
    → in_tx m v ≡ (ok a, w)
    → (u u' : World) × (u.tables ≡ v.tables) × (m u ≡ (ok a, u')) × (u'.tables ≡ w.tables)
unfolding in_tx
in_tx-returns {A = A} m v h =
    let commit : A → Exec A = λ a. statement (pure a) in
    let (x, u, begun, e) = bind-returns _ (λ _. m >>= commit) v (ended-returns v.tables _ h) in
    let (b, u', ran, committed) = bind-returns m commit u e in
    let (same, kept) = statement-pure-returns b u' committed in
    (u, u', sym (statement-pure-returns _ v begun).1, subst (λ z. m u ≡ (ok z, u')) same ran, kept)

rescue-returns {ℓ} :
    {A : Type ℓ} (h : Error → Exec A) (r : Result A × World) {a : A} {w : World}
    → rescue h r ≡ (ok a, w)
    → (r ≡ (ok a, w)) ⊎ ((e : Error) × (u : World) × (h e u ≡ (ok a, w)))
rescue-returns h (ok b, u) q = inl q
rescue-returns h (err e, u) q = inr (e, u, q)

pub catch-returns {ℓ} :
    {A : Type ℓ} (m : Exec A) (h : Error → Exec A) (v : World) {a : A} {w : World}
    → catch m h v ≡ (ok a, w)
    → (m v ≡ (ok a, w)) ⊎ ((e : Error) × (u : World) × (h e u ≡ (ok a, w)))
unfolding catch
catch-returns m h v q = rescue-returns h (m v) q
