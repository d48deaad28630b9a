-- ===== src/Auth.antt =====
-- internal/auth/auth.go: API keys and the audit of each attempt. A map is an association list in
-- which an entry for a key that is there takes its place. `New` ranges over a Go map, whose order only
-- matters if two secrets have one hash.
pub mod Decision
pub mod Keys
pub mod Configured
use device_telemetry_ro.Prelude.{
  ◌==◌, if◌then◌else◌, length, take, drop, ℕ, ◌+◌, Bool, true, ◌||◌, Option, none, some, List, [],
  ◌∷◌, ◌++◌,
}
use device_telemetry_ro.Prelude.Bytes.{Bytes, eqb}
use device_telemetry_ro.Domain.{Time, AuditAction, audit_authenticated, audit_rejected, ApiKeyAudit}
use device_telemetry_ro.External.{External}
use device_telemetry_ro.Text.{trim_space, split, index}
use device_telemetry_ro.Db.{◌>>=◌, Exec, pure, catch}
use device_telemetry_ro.Store.Audit.{record_audit}

-- `KeyEntry`
pub record KeyEntry : Type 0 where
  pub operator : Bytes
  pub enabled : Bool

abbrev pub KeyMap : Type 0
KeyMap = List (Bytes × KeyEntry)

abbrev pub lookup_key : Bytes → KeyMap → Option KeyEntry
lookup_key k [] = none
lookup_key k ((x, e) ∷ m) = if eqb x k then some e else lookup_key k m

-- `m[k] = e`
abbrev pub put_key : Bytes → KeyEntry → KeyMap → KeyMap
put_key k e [] = (k, e) ∷ []
put_key k e ((x, d) ∷ m) = let rest = put_key k e m in if eqb x k then (x, e) ∷ m else (x, d) ∷ rest

pub data KeyError : Type 0 where
  invalid_pair : Bytes → KeyError
  duplicate_secret : Bytes → KeyError

pub data ParsedKeys : Type 0 where
  keys_ok : KeyMap → ParsedKeys
  keys_error : KeyError → ParsedKeys

abbrev pub colon : ℕ
colon = b':'

-- the last statements of the loop of `ParseKeyPairs`
abbrev pub add_pair : Bytes → Bytes → KeyMap → ParsedKeys
add_pair operator secret out = elim (lookup_key secret out) [
  | some e ↦ keys_error (duplicate_secret operator)
  | none ↦ keys_ok (out ++ (secret, record { operator = operator; enabled = true }) ∷ [])
]

-- what the loop does with a trimmed part, given where its first colon is
abbrev pub pair_at : Bytes → Option ℕ → KeyMap → ParsedKeys
pair_at part none out = keys_error (invalid_pair part)
pair_at part (some idx) out =
    if idx == 0 || idx + 1 == length part
    then keys_error (invalid_pair part)
    else add_pair (trim_space (take idx part)) (trim_space (drop (idx + 1) part)) out

unfoldable pub parse_pair : Bytes → KeyMap → ParsedKeys
parse_pair part out = if eqb part [] then keys_ok out else pair_at part (index colon part) out

abbrev pub and_then : ParsedKeys → (KeyMap → ParsedKeys) → ParsedKeys
and_then (keys_ok m) f = f m
and_then (keys_error e) f = keys_error e

-- the loop of `ParseKeyPairs`
unfoldable pub parse_pairs : List Bytes → KeyMap → ParsedKeys
parse_pairs [] out = keys_ok out
parse_pairs (p ∷ ps) out = and_then (parse_pair (trim_space p) out) (parse_pairs ps)

-- `ParseKeyPairs`, whose keys are the secrets
unfoldable pub parse_key_pairs : Bytes → ParsedKeys
parse_key_pairs spec =
    if eqb (trim_space spec) [] then keys_ok [] else parse_pairs (split b',' spec) []

module _ (ext : External) where
  -- the loop of `New`: the keys of the map are hashed
  unfoldable pub new_keys : KeyMap → KeyMap → KeyMap
  new_keys [] m = m
  new_keys ((id, e) ∷ keys) m = new_keys keys (put_key (ext.sha256_hex id) e m)

  abbrev attempt : Time → Bytes → Bytes → Bytes → AuditAction → Bytes → ApiKeyAudit
  attempt at h remote path action operator = record {
    id = 0;
    key_hash = h;
    action = action;
    operator = operator;
    remote = remote;
    path = path;
    at = at;
  }

  -- `_ = a.audit.RecordAudit(...)`, whose error is dropped
  unfoldable pub audited {ℓ} : {A : Type ℓ} → ApiKeyAudit → A → Exec A
  audited a result = catch (record_audit a >>= λ _. pure result) (λ e. pure result)

  abbrev pub decided : Time → Bytes → Bytes → Bytes → Option KeyEntry → Exec (Option Bytes)
  decided at h remote path none = audited (attempt at h remote path audit_rejected []) none
  decided at h remote path (some e) =
      if e.enabled
      then audited (attempt at h remote path audit_authenticated e.operator) (some e.operator)
      else audited (attempt at h remote path audit_rejected e.operator) none

  -- `Authenticate`, over the map that `New` built: the operator, if the key is accepted
  unfoldable pub authenticate : KeyMap → Time → Bytes → Bytes → Bytes → Exec (Option Bytes)
  authenticate keys at presented remote path =
      decided at (ext.sha256_hex presented) remote path (lookup_key (ext.sha256_hex presented) keys)
