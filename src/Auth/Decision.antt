-- ===== src/Auth/Decision.antt =====
-- internal/auth/auth.go: what Authenticate answers and what it writes.
use device_telemetry_ro.Prelude.{
  if◌then◌else◌, Bool-cases, ℕ, suc, ◌≡◌, refl, sym, ap, ◌∙◌, inl, inr, Option, none, some, [], ◌∷◌,
  ◌++◌,
}
use device_telemetry_ro.Prelude.Bytes.{Bytes}
use device_telemetry_ro.Domain.{Time, AuditAction, audit_authenticated, audit_rejected, ApiKeyAudit}
use device_telemetry_ro.Domain.Errors.{Result, ok, err}
use device_telemetry_ro.External.{External}
use device_telemetry_ro.Db.{
  ◌>>=◌, Tables, Sequences, World, world, continue, pure, rescue, catch, statement, insert,
}
use device_telemetry_ro.Db.Keeps.{
  Keeps, if-Keeps, pure-Keeps, bind-Keeps, catch-Keeps, insert-Keeps,
}
use device_telemetry_ro.Db.Returns.{ok-inj}
use device_telemetry_ro.Store.Audit.{audit_row, record_audit}
use device_telemetry_ro.Auth.{KeyEntry, KeyMap, lookup_key, audited, decided, authenticate}

-- the operator of a key, if the key is known and enabled
unfoldable pub accepted_operator : KeyMap → Bytes → Option Bytes
accepted_operator keys h = elim (lookup_key h keys) [
  | none ↦ none
  | some e ↦ if e.enabled then some e.operator else none
]

-- the tables without the log of attempts
abbrev pub unaudited : Tables → Tables
unaudited t = record t { audits = [] }

unfoldable pub SameButAudits : Tables → Tables → Type 0
SameButAudits u t = unaudited t ≡ u

audit_row-unaudited :
    (u : Tables) (a : ApiKeyAudit) (id : ℕ) (t t' : Tables)
    → unaudited t ≡ u
    → audit_row a id t ≡ ok t'
    → unaudited t' ≡ u
unfolding audit_row
audit_row-unaudited u a id t t' p e =
    let q : unaudited t ≡ unaudited t' = ap unaudited (ok-inj e) in sym q ∙ p

record_audit-Keeps : (u : Tables) (a : ApiKeyAudit) → Keeps (SameButAudits u) (record_audit a)
unfolding record_audit SameButAudits
record_audit-Keeps u a = insert-Keeps (SameButAudits u) _ _ (audit_row-unaudited u a)

dropped {ℓ} :
    {A : Type ℓ} (a : A) (r : Result ℕ × World)
    → (rescue (λ e. pure a) (continue (λ _. pure a) r)).0 ≡ ok a
unfolding pure
dropped a (ok n, w) = refl
dropped a (err e, w) = refl

audited-result {ℓ} :
    {A : Type ℓ} (ext : External) (row : ApiKeyAudit) (a : A) (w : World)
    → (audited ext row a w).0 ≡ ok a
unfolding audited catch ◌>>=◌
audited-result ext row a w = dropped a (record_audit row w)

audited-Keeps {ℓ} :
    {A : Type ℓ} (ext : External) (u : Tables) (row : ApiKeyAudit) (a : A)
    → Keeps (SameButAudits u) (audited ext row a)
unfolding audited
audited-Keeps ext u row a =
    catch-Keeps _ _ _ (bind-Keeps _ _ _ (record_audit-Keeps u row) (λ _. pure-Keeps _ a))
      (λ _. pure-Keeps _ a)

module _ (ext : External) (keys : KeyMap) (at : Time) where
  decided-result :
      (h remote path : Bytes) (o : Option KeyEntry) (w : World)
      → (decided ext at h remote path o w).0
        ≡ ok (elim o [ none ↦ none | some e ↦ if e.enabled then some e.operator else none ])
  decided-result h remote path none w = audited-result ext _ none w
  decided-result h remote path (some e) w = elim (Bool-cases e.enabled) [
    | inl b ↦ rw b (audited-result ext _ (some e.operator) w)
    | inr b ↦ rw b (audited-result ext _ none w)
  ]

  decided-Keeps :
      (u : Tables) (h remote path : Bytes) (o : Option KeyEntry)
      → Keeps (SameButAudits u) (decided ext at h remote path o)
  decided-Keeps u h remote path none = audited-Keeps ext u _ none
  decided-Keeps u h remote path (some e) =
      if-Keeps _ e.enabled _ _ (λ _. audited-Keeps ext u _ _) (λ _. audited-Keeps ext u _ _)

  pub authenticate-Keeps :
      (u : Tables) (presented remote path : Bytes)
      → Keeps (SameButAudits u) (authenticate ext keys at presented remote path)
  unfolding authenticate
  authenticate-Keeps u presented remote path = decided-Keeps u _ remote path _

  -- `Authenticate` answers with the operator of the presented key if the key is known and enabled,
  -- and with a rejection otherwise, and it changes no table but the log of attempts: whichever
  -- statement the database fails.
  pub authenticate-decision :
      (presented remote path : Bytes) (w : World)
      → ((authenticate ext keys at presented remote path w).0
          ≡ ok (accepted_operator keys (ext.sha256_hex presented)))
        × (unaudited (authenticate ext keys at presented remote path w).1.tables
            ≡ unaudited w.tables)
  unfolding authenticate accepted_operator SameButAudits Keeps
  authenticate-decision presented remote path w = (
    decided-result _ remote path _ w,
    authenticate-Keeps (unaudited w.tables) presented remote path w refl,
  )

  abbrev pub decision_of : Option Bytes → AuditAction
  decision_of none = audit_rejected
  decision_of (some op) = audit_authenticated

  abbrev pub known_operator : Option KeyEntry → Bytes
  known_operator none = []
  known_operator (some e) = e.operator

  abbrev admitted : Option KeyEntry → Option Bytes
  admitted none = none
  admitted (some e) = if e.enabled then some e.operator else none

  abbrev entry_for : Option KeyEntry → ℕ → Bytes → Bytes → Bytes → ApiKeyAudit
  entry_for found id h remote path = record {
    id = id;
    key_hash = h;
    action = decision_of (admitted found);
    operator = known_operator found;
    remote = remote;
    path = path;
    at = at;
  }

  -- the entry of the log for an attempt
  unfoldable pub attempt_entry : ℕ → Bytes → Bytes → Bytes → ApiKeyAudit
  attempt_entry id presented remote path =
      entry_for (lookup_key (ext.sha256_hex presented) keys) id (ext.sha256_hex presented) remote
        path

  decided-audits :
      (o : Option KeyEntry) (h remote path : Bytes) (t : Tables) (s : Sequences)
      → (decided ext at h remote path o (world t s [])).1.tables.audits
        ≡ t.audits ++ entry_for o (suc s.audit_seq) h remote path ∷ []
  unfolding audited catch ◌>>=◌ record_audit insert statement audit_row pure
  decided-audits none h remote path t s = refl
  decided-audits (some e) h remote path t s = elim (Bool-cases e.enabled) [
    | inl b ↦ rw b refl
    | inr b ↦ rw b refl
  ]

  -- On a database that answers, each attempt appends one entry to the log, with the hash of the
  -- presented key, the operator of the key if it is known, and whether it was accepted.
  pub authenticate-audits :
      (presented remote path : Bytes) (t : Tables) (s : Sequences)
      → (authenticate ext keys at presented remote path (world t s [])).1.tables.audits
        ≡ t.audits ++ attempt_entry (suc s.audit_seq) presented remote path ∷ []
  unfolding authenticate attempt_entry
  authenticate-audits presented remote path t s =
      decided-audits _ (ext.sha256_hex presented) remote path t s
