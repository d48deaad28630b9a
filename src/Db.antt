-- ===== src/Db.antt =====
-- The database behind internal/store: the tables of internal/migrate/migrate.go, the sequences of
-- their ids, and statements that may fail. `World.faults` says of each statement to come whether the
-- driver fails it, and with what text; from its end on the database answers. Transactions follow
-- `InTx` of internal/store/pg_device_raw.go: an error rolls the tables back, and the sequences keep
-- their values. One request runs at a time.
pub mod Atomic
pub mod Keeps
pub mod Returns
use device_telemetry_ro.Prelude.Bytes.{Bytes}
use device_telemetry_ro.Domain.{
  Device, RawMessage, Event, RouteRule, RouteRuleChangeLog, DeliveryRecord, ApiKeyAudit,
}
use device_telemetry_ro.Domain.Errors.{Error, driver, Result, ok, err}
use device_telemetry_ro.Prelude.{ℕ, Option, none, some, List, [], ◌∷◌}

pub record Tables : Type 0 where
  pub devices : List Device
  pub raws : List RawMessage
  pub events : List Event
  pub rules : List RouteRule
  pub changes : List RouteRuleChangeLog
  pub deliveries : List DeliveryRecord
  pub audits : List ApiKeyAudit

-- the last id of each BIGSERIAL column
pub record Sequences : Type 0 where
  pub raw_seq : ℕ
  pub event_seq : ℕ
  pub rule_seq : ℕ
  pub change_seq : ℕ
  pub delivery_seq : ℕ
  pub audit_seq : ℕ

pub record World : Type 0 where
  pub tables : Tables
  pub sequences : Sequences
  pub faults : List (Option Bytes)

abbrev pub world : Tables → Sequences → List (Option Bytes) → World
world t s f = record { tables = t; sequences = s; faults = f }

abbrev pub Exec {ℓ} : Type ℓ → Type ℓ
Exec A = World → Result A × World

abbrev pub continue {ℓ κ} :
    {A : Type ℓ} {B : Type κ} → (A → Exec B) → Result A × World → Result B × World
continue f (ok a, w) = f a w
continue f (err e, w) = (err e, w)

infixl 5 ◌>>=◌ ◌>>◌
unfoldable pub ◌>>=◌ {ℓ κ} : {A : Type ℓ} {B : Type κ} → Exec A → (A → Exec B) → Exec B
m >>= f = λ w. continue f (m w)

abbrev pub ◌>>◌ {ℓ κ} : {A : Type ℓ} {B : Type κ} → Exec A → Exec B → Exec B
m >> k = m >>= λ _. k

unfoldable pub pure {ℓ} : {A : Type ℓ} → A → Exec A
pure a w = (ok a, w)

unfoldable pub throw {ℓ} : {A : Type ℓ} → Error → Exec A
throw e w = (err e, w)

abbrev pub rescue {ℓ} : {A : Type ℓ} → (Error → Exec A) → Result A × World → Result A × World
rescue h (ok a, w) = (ok a, w)
rescue h (err e, w) = h e w

-- `if err != nil { ... }` around a call whose error does not end the caller
unfoldable pub catch {ℓ} : {A : Type ℓ} → Exec A → (Error → Exec A) → Exec A
catch m h w = rescue h (m w)

abbrev pub with_faults {ℓ} :
    {A : Type ℓ} → Exec A → Tables → Sequences → List (Option Bytes) → Result A × World
with_faults m t s [] = m (world t s [])
with_faults m t s (none ∷ fs) = m (world t s fs)
with_faults m t s (some text ∷ fs) = (err (driver text), world t s fs)

-- one statement: when the driver fails it, it has changed nothing
unfoldable pub statement {ℓ} : {A : Type ℓ} → Exec A → Exec A
statement m w = with_faults m w.tables w.sequences w.faults

abbrev pub read {ℓ} : {A : Type ℓ} → (Tables → A) → Exec A
read f w = (ok (f w.tables), w)

-- a statement that only reads
unfoldable pub query {ℓ} : {A : Type ℓ} → (Tables → A) → Exec A
query f = statement (read f)

abbrev pub outcome_of {ℓ} : {A : Type ℓ} → A → Sequences → World → Result Tables → Result A × World
outcome_of a s w (ok t) = (ok a, world t s w.faults)
outcome_of a s w (err e) = (err e, world w.tables s w.faults)

abbrev pub updated : (Tables → Tables) → Exec (Unit {0})
updated f w = (ok tt, world (f w.tables) w.sequences w.faults)

-- an UPDATE
unfoldable pub update : (Tables → Tables) → Exec (Unit {0})
update f = statement (updated f)

abbrev pub inserted : (Sequences → Sequences × ℕ) → (ℕ → Tables → Result Tables) → Exec ℕ
inserted next row w = let (s, id) = next w.sequences in outcome_of id s w (row id w.tables)

-- an INSERT that takes its id from the sequence and that a constraint may refuse
unfoldable pub insert : (Sequences → Sequences × ℕ) → (ℕ → Tables → Result Tables) → Exec ℕ
insert next row = statement (inserted next row)

abbrev pub ended {ℓ} : {A : Type ℓ} → Tables → Result A × World → Result A × World
ended t (ok a, w) = (ok a, w)
ended t (err e, w) = (err e, world t w.sequences w.faults)

-- `InTx`: BeginTx, the body, Commit, and on any error the deferred Rollback
unfoldable pub in_tx {ℓ} : {A : Type ℓ} → Exec A → Exec A
in_tx m w = ended w.tables ((statement (pure (tt {0})) >>= λ _. m >>= λ a. statement (pure a)) w)
