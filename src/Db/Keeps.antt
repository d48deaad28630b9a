-- ===== src/Db/Keeps.antt =====
-- Invariants of the tables that a run of statements keeps, whichever of them fail.
use device_telemetry_ro.Prelude.{
  if◌then◌else◌, ℕ, ◌≡◌, refl, Bool, true, false, Option, none, some, List, [], ◌∷◌,
}
use device_telemetry_ro.Prelude.Bytes.{Bytes}
use device_telemetry_ro.Domain.Errors.{Error, Result, ok, err}
use device_telemetry_ro.Db.{
  ◌>>=◌, Tables, Sequences, World, world, Exec, continue, pure, throw, rescue, catch, with_faults,
  statement, read, query, outcome_of, updated, update, inserted, insert, ended, in_tx,
}

unfoldable pub Keeps {ℓ κ} : {A : Type ℓ} → (Tables → Type κ) → Exec A → Type κ
Keeps P m = (w : World) → P w.tables → P (m w).1.tables

pub if-Keeps {ℓ κ} :
    {A : Type ℓ} (P : Tables → Type κ) (b : Bool) (m k : Exec A)
    → (b ≡ true → Keeps P m)
    → (b ≡ false → Keeps P k)
    → Keeps P (if b then m else k)
if-Keeps P true m k r s = r refl
if-Keeps P false m k r s = s refl

module _ {κ} (P : Tables → Type κ) where
  with_faults-keeps {ℓ} :
      {A : Type ℓ} (m : Exec A) (t : Tables) (s : Sequences) (fs : List (Option Bytes))
      → ((v : List (Option Bytes)) → P (m (world t s v)).1.tables)
      → P t
      → P (with_faults m t s fs).1.tables
  with_faults-keeps m t s [] h p = h []
  with_faults-keeps m t s (none ∷ fs) h p = h fs
  with_faults-keeps m t s (some text ∷ fs) h p = p

  pub query-Keeps {ℓ} : {A : Type ℓ} (f : Tables → A) → Keeps P (query f)
  unfolding Keeps query statement
  query-Keeps f w p = with_faults-keeps (read f) w.tables w.sequences w.faults (λ v. p) p

  pub pure-Keeps {ℓ} : {A : Type ℓ} (a : A) → Keeps P (pure a)
  unfolding Keeps pure
  pure-Keeps a w p = p

  pub throw-Keeps {ℓ} : (A : Type ℓ) (e : Error) → Keeps P (throw {A = A} e)
  unfolding Keeps throw
  throw-Keeps A e w p = p

  continue-keeps {ℓ ι} :
      {A : Type ℓ} {B : Type ι} (f : A → Exec B) (r : Result A × World)
      → ((a : A) → Keeps P (f a))
      → P r.1.tables
      → P (continue f r).1.tables
  unfolding Keeps
  continue-keeps f (ok a, w) k p = k a w p
  continue-keeps f (err e, w) k p = p

  pub bind-Keeps {ℓ ι} :
      {A : Type ℓ} {B : Type ι} (m : Exec A) (f : A → Exec B)
      → Keeps P m
      → ((a : A) → Keeps P (f a))
      → Keeps P (m >>= f)
  unfolding Keeps ◌>>=◌
  bind-Keeps m f h k w p = continue-keeps f (m w) k (h w p)

  rescue-keeps {ℓ} :
      {A : Type ℓ} (h : Error → Exec A) (r : Result A × World)
      → ((e : Error) → Keeps P (h e))
      → P r.1.tables
      → P (rescue h r).1.tables
  unfolding Keeps
  rescue-keeps h (ok a, w) k p = p
  rescue-keeps h (err e, w) k p = k e w p

  pub catch-Keeps {ℓ} :
      {A : Type ℓ} (m : Exec A) (h : Error → Exec A)
      → Keeps P m
      → ((e : Error) → Keeps P (h e))
      → Keeps P (catch m h)
  unfolding Keeps catch
  catch-Keeps m h a k w p = rescue-keeps h (m w) k (a w p)

  pub update-Keeps : (f : Tables → Tables) → ((t : Tables) → P t → P (f t)) → Keeps P (update f)
  unfolding Keeps update statement
  update-Keeps f h w p =
      with_faults-keeps (updated f) w.tables w.sequences w.faults (λ v. h w.tables p) p

  outcome_of-keeps {ℓ} :
      {A : Type ℓ} (a : A) (s : Sequences) (w : World) (r : Result Tables)
      → ((t : Tables) → r ≡ ok t → P t)
      → P w.tables
      → P (outcome_of a s w r).1.tables
  outcome_of-keeps a s w (ok t) h p = h t refl
  outcome_of-keeps a s w (err e) h p = p

  pub insert-Keeps :
      (next : Sequences → Sequences × ℕ) (row : ℕ → Tables → Result Tables)
      → ((id : ℕ) (t t' : Tables) → P t → row id t ≡ ok t' → P t')
      → Keeps P (insert next row)
  unfolding Keeps insert statement
  insert-Keeps next row h w p =
      with_faults-keeps (inserted next row) w.tables w.sequences w.faults
        (λ v.
          let (s, id) = next w.sequences in
          outcome_of-keeps id s (world w.tables w.sequences v) (row id w.tables)
            (λ t e. h id w.tables t p e) p)
        p

  ended-keeps {ℓ} :
      {A : Type ℓ} (t : Tables) (r : Result A × World) → P t → P r.1.tables → P (ended t r).1.tables
  ended-keeps t (ok a, w) p q = q
  ended-keeps t (err e, w) p q = p

  pub in_tx-Keeps {ℓ} : {A : Type ℓ} (m : Exec A) → Keeps P m → Keeps P (in_tx m)
  unfolding Keeps in_tx statement pure
  in_tx-Keeps m h w p = ended-keeps w.tables _ p (
      bind-Keeps (statement (pure (tt {0}))) (λ _. m >>= λ a. statement (pure a))
        (λ v q. with_faults-keeps (pure tt) v.tables v.sequences v.faults (λ u. q) q)
        (λ _.
          bind-Keeps m (λ a. statement (pure a)) h
            (λ a v q. with_faults-keeps (pure a) v.tables v.sequences v.faults (λ u. q) q))
        w p)

  read_then-keeps {ℓ ι} :
      {A : Type ℓ} {B : Type ι} (f : Tables → A) (k : A → Exec B) (t : Tables) (s : Sequences)
      (fs : List (Option Bytes))
      → Keeps P (k (f t))
      → P t
      → P (continue k (with_faults (read f) t s fs)).1.tables
  unfolding Keeps
  read_then-keeps f k t s [] h p = h (world t s []) p
  read_then-keeps f k t s (none ∷ fs) h p = h (world t s fs) p
  read_then-keeps f k t s (some text ∷ fs) h p = p

  -- A read, when what follows keeps the invariant for the rows that were read.
  pub query_then-keeps {ℓ ι} :
      {A : Type ℓ} {B : Type ι} (f : Tables → A) (k : A → Exec B) (w : World)
      → Keeps P (k (f w.tables))
      → P w.tables
      → P ((query f >>= k) w).1.tables
  unfolding query statement ◌>>=◌
  query_then-keeps f k w h p = read_then-keeps f k w.tables w.sequences w.faults h p
