-- ===== src/Db/Atomic.antt =====
-- What a run of statements does to the tables when it fails, for internal/store.
use device_telemetry_ro.Prelude.Bytes.{Bytes}
use device_telemetry_ro.Domain.Errors.{Error, Result, ok, err}
use device_telemetry_ro.Db.{
  ◌>>=◌, Tables, Sequences, World, world, Exec, continue, pure, throw, rescue, catch, with_faults,
  statement, read, query, outcome_of, updated, update, inserted, insert, ended, in_tx,
}
use device_telemetry_ro.Prelude.{ℕ, ◌≡◌, refl, ◌∙◌, Option, none, some, List, [], ◌∷◌}

-- It leaves the tables as they were.
unfoldable pub IsReadOnly {ℓ} : {A : Type ℓ} → Exec A → Type 0
IsReadOnly m = (w : World) → (m w).1.tables ≡ w.tables

-- When it fails it leaves the tables as they were.
unfoldable pub IsAtomic {ℓ} : {A : Type ℓ} → Exec A → Type ℓ
IsAtomic {A = A} m = (w : World) (e : Error) → (m w).0 ≡ err e → (m w).1.tables ≡ w.tables

pub IsReadOnly-IsAtomic {ℓ} : {A : Type ℓ} (m : Exec A) → IsReadOnly m → IsAtomic m
unfolding IsReadOnly IsAtomic
IsReadOnly-IsAtomic m r w e _ = r w

with_faults-tables {ℓ} :
    {A : Type ℓ} (m : Exec A) (t : Tables) (s : Sequences) (fs : List (Option Bytes))
    → ((v : List (Option Bytes)) → (m (world t s v)).1.tables ≡ t)
    → (with_faults m t s fs).1.tables ≡ t
with_faults-tables m t s [] h = h []
with_faults-tables m t s (none ∷ fs) h = h fs
with_faults-tables m t s (some text ∷ fs) h = refl

pub query-IsReadOnly {ℓ} : {A : Type ℓ} (f : Tables → A) → IsReadOnly (query f)
unfolding IsReadOnly query statement
query-IsReadOnly f w = with_faults-tables (read f) w.tables w.sequences w.faults (λ v. refl)

pub pure-IsReadOnly {ℓ} : {A : Type ℓ} (a : A) → IsReadOnly (pure a)
unfolding IsReadOnly pure
pure-IsReadOnly a w = refl

pub throw-IsReadOnly {ℓ} : (A : Type ℓ) (e : Error) → IsReadOnly (throw {A = A} e)
unfolding IsReadOnly throw
throw-IsReadOnly A e w = refl

continue-tables {ℓ κ} :
    {A : Type ℓ} {B : Type κ} (f : A → Exec B) (t : Tables) (r : Result A × World)
    → ((a : A) → IsReadOnly (f a))
    → r.1.tables ≡ t
    → (continue f r).1.tables ≡ t
unfolding IsReadOnly
continue-tables f t (ok a, w) k h = k a w ∙ h
continue-tables f t (err e, w) k h = h

pub bind-IsReadOnly {ℓ κ} :
    {A : Type ℓ} {B : Type κ} (m : Exec A) (f : A → Exec B)
    → IsReadOnly m
    → ((a : A) → IsReadOnly (f a))
    → IsReadOnly (m >>= f)
unfolding IsReadOnly ◌>>=◌
bind-IsReadOnly m f r k w = continue-tables f w.tables (m w) k (r w)

continue-IsAtomic {ℓ κ} :
    {A : Type ℓ} {B : Type κ} (f : A → Exec B) (t : Tables) (r : Result A × World)
    → ((a : A) → IsAtomic (f a))
    → r.1.tables ≡ t
    → (e : Error) → (continue f r).0 ≡ err e
    → (continue f r).1.tables ≡ t
unfolding IsAtomic
continue-IsAtomic f t (ok a, w) k h e q = k a w e q ∙ h
continue-IsAtomic f t (err e', w) k h e q = h

-- Reads, then something atomic.
pub bind-IsAtomic {ℓ κ} :
    {A : Type ℓ} {B : Type κ} (m : Exec A) (f : A → Exec B)
    → IsReadOnly m
    → ((a : A) → IsAtomic (f a))
    → IsAtomic (m >>= f)
unfolding IsReadOnly IsAtomic ◌>>=◌
bind-IsAtomic m f r k w e q = continue-IsAtomic f w.tables (m w) k (r w) e q

pure-tables {ℓ κ} :
    {A : Type ℓ} {B : Type κ} (f : A → B) (t : Tables) (r : Result A × World)
    → ((e : Error) → r.0 ≡ err e → r.1.tables ≡ t)
    → (e : Error) → (continue (λ a. pure (f a)) r).0 ≡ err e
    → (continue (λ a. pure (f a)) r).1.tables ≡ t
unfolding pure
pure-tables f t (ok a, v) h e q = cc
pure-tables f t (err e', v) h e q = h e' refl

-- Something atomic, then a result.
pub bind_pure-IsAtomic {ℓ κ} :
    {A : Type ℓ} {B : Type κ} (m : Exec A) (f : A → B)
    → IsAtomic m
    → IsAtomic (m >>= λ a. pure (f a))
unfolding IsAtomic ◌>>=◌
bind_pure-IsAtomic m f k w e q = pure-tables f w.tables (m w) (k w) e q

ended-IsAtomic {ℓ} :
    {A : Type ℓ} (t : Tables) (r : Result A × World) (e : Error)
    → (ended t r).0 ≡ err e
    → (ended t r).1.tables ≡ t
ended-IsAtomic t (ok a, w) e q = cc
ended-IsAtomic t (err e', w) e q = refl

-- A transaction is atomic, whatever its statements do.
pub in_tx-IsAtomic {ℓ} : {A : Type ℓ} (m : Exec A) → IsAtomic (in_tx m)
unfolding IsAtomic in_tx
in_tx-IsAtomic m w e q = ended-IsAtomic w.tables _ e q

rescue-IsAtomic {ℓ} :
    {A : Type ℓ} (h : Error → Exec A) (t : Tables) (r : Result A × World)
    → ((e : Error) → IsReadOnly (h e))
    → ((e : Error) → r.0 ≡ err e → r.1.tables ≡ t)
    → (e : Error) → (rescue h r).0 ≡ err e
    → (rescue h r).1.tables ≡ t
unfolding IsReadOnly
rescue-IsAtomic h t (ok a, w) k a' e q = cc
rescue-IsAtomic h t (err e', w) k a' e q = k e' w ∙ a' e' refl

-- Something atomic, and reads when it fails.
pub catch-IsAtomic {ℓ} :
    {A : Type ℓ} (m : Exec A) (h : Error → Exec A)
    → IsAtomic m
    → ((e : Error) → IsReadOnly (h e))
    → IsAtomic (catch m h)
unfolding IsAtomic catch
catch-IsAtomic m h a k w e q = rescue-IsAtomic h w.tables (m w) k (a w) e q

rescue-tables {ℓ} :
    {A : Type ℓ} (h : Error → Exec A) (t : Tables) (r : Result A × World)
    → ((e : Error) → IsReadOnly (h e))
    → r.1.tables ≡ t
    → (rescue h r).1.tables ≡ t
unfolding IsReadOnly
rescue-tables h t (ok a, w) k a' = a'
rescue-tables h t (err e', w) k a' = k e' w ∙ a'

pub catch-IsReadOnly {ℓ} :
    {A : Type ℓ} (m : Exec A) (h : Error → Exec A)
    → IsReadOnly m
    → ((e : Error) → IsReadOnly (h e))
    → IsReadOnly (catch m h)
unfolding IsReadOnly catch
catch-IsReadOnly m h a k w = rescue-tables h w.tables (m w) k (a w)

-- One UPDATE or INSERT.
with_faults-error {ℓ} :
    {A : Type ℓ} (m : Exec A) (t : Tables) (s : Sequences) (fs : List (Option Bytes)) (e : Error)
    → ((v : List (Option Bytes)) → (m (world t s v)).0 ≡ err e → (m (world t s v)).1.tables ≡ t)
    → (with_faults m t s fs).0 ≡ err e
    → (with_faults m t s fs).1.tables ≡ t
with_faults-error m t s [] e h q = h [] q
with_faults-error m t s (none ∷ fs) e h q = h fs q
with_faults-error m t s (some text ∷ fs) e h q = refl

pub update-IsAtomic : (f : Tables → Tables) → IsAtomic (update f)
unfolding IsAtomic update statement
update-IsAtomic f w e q =
    with_faults-error (updated f) w.tables w.sequences w.faults e (λ v p. cc) q

outcome_of-tables {ℓ} :
    {A : Type ℓ} (a : A) (s : Sequences) (w : World) (r : Result Tables) (e : Error)
    → (outcome_of a s w r).0 ≡ err e
    → (outcome_of a s w r).1.tables ≡ w.tables
outcome_of-tables a s w (ok t) e q = cc
outcome_of-tables a s w (err e') e q = refl

pub insert-IsAtomic :
    (next : Sequences → Sequences × ℕ) (row : ℕ → Tables → Result Tables)
    → IsAtomic (insert next row)
unfolding IsAtomic insert statement
insert-IsAtomic next row w e q =
    with_faults-error (inserted next row) w.tables w.sequences w.faults e
      (λ v p.
        let (s, id) = next w.sequences in
        outcome_of-tables id s (world w.tables w.sequences v) (row id w.tables) e p)
      q
