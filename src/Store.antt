-- ===== src/Store.antt =====
-- internal/store: one function per statement. A row is kept as the domain value that its columns
-- hold, a table as its rows in the order of insertion, and an update keeps a row's place. The unique
-- and foreign keys are those of internal/migrate/migrate.go; a refused insert is the error of the
-- driver, whose text is PostgreSQL's. An instant keeps its nanoseconds and a jsonb its text.
pub mod Devices
pub mod Rules
pub mod Deliveries
pub mod Audit
pub mod Listing
pub mod Lifecycle
pub mod Pages
use device_telemetry_ro.Prelude.{if◌then◌else◌, any, All, Bool, true, false, List, [], ◌∷◌, map}
use device_telemetry_ro.Prelude.Bytes.{Bytes, codes, eqb}
use device_telemetry_ro.Domain.Errors.{Error, driver, Result, err}
use device_telemetry_ro.Db.{Tables, update, insert}

unfoldable pub duplicate_key : Error
duplicate_key = driver (codes "pq: duplicate key value violates unique constraint")

unfoldable pub foreign_key : Error
foreign_key = driver (codes "pq: insert or update on table violates foreign key constraint")

-- the constraints of an insert, in order, and then the new tables
abbrev pub unless : Bool → Error → Result Tables → Result Tables
unless true e r = err e
unless false e r = r

abbrev pub has_device : Bytes → Tables → Bool
has_device id t = any (λ d. eqb d.device_id id) t.devices

abbrev pub has_event : Bytes → Tables → Bool
has_event id t = any (λ e. eqb e.event_id id) t.events

abbrev pub has_rule : Bytes → Tables → Bool
has_rule id t = any (λ r. eqb r.rule_id id) t.rules

-- the rows of a WHERE, changed
abbrev pub change_where {ℓ} : {A : Type ℓ} → (A → Bool) → (A → A) → List A → List A
change_where p f xs = map (λ x. if p x then f x else x) xs

-- What a change keeps, and the rows that it leaves.
pub All-change_where {ℓ κ} :
    {A : Type ℓ} {R : A → Type κ} (p : A → Bool) (f : A → A) (xs : List A)
    → ((x : A) → R x → R (f x))
    → All R xs
    → All R (change_where p f xs)
All-change_where p f [] h a = a
All-change_where {A = A} {R = R} p f (x ∷ xs) h (r, a) = (head (p x), All-change_where p f xs h a)
  where
    head : (b : Bool) → R (if b then f x else x)
    head true = h x r
    head false = r
