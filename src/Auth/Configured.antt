-- ===== src/Auth/Configured.antt =====
-- internal/auth/auth.go: which keys a configuration admits.
use mathlib.Core.Option.{some-injective}
use device_telemetry_ro.Prelude.{
  ◌==◌, if◌then◌else◌, length, All, All-append, ℕ, ◌+◌, ◌≡◌, refl, ap, subst, ◌∙◌, Bool, true,
  false, ◌||◌, Option, none, some, List, [], ◌∷◌, ◌++◌,
}
use device_telemetry_ro.Prelude.Bytes.{Bytes, eqb}
use device_telemetry_ro.Domain.{Time}
use device_telemetry_ro.Domain.Errors.{ok}
use device_telemetry_ro.External.{External}
use device_telemetry_ro.Text.{trim_space, split, index}
use device_telemetry_ro.Db.{World}
use device_telemetry_ro.Auth.{
  KeyEntry, KeyMap, lookup_key, KeyError, duplicate_secret, ParsedKeys, keys_ok, keys_error, colon,
  add_pair, pair_at, parse_pair, and_then, parse_pairs, parse_key_pairs, new_keys, authenticate,
}
use device_telemetry_ro.Auth.Keys.{Apart, IsCollisionFree, Apart-snoc, or_found, lookup-new_keys}
use device_telemetry_ro.Auth.Decision.{accepted_operator, authenticate-decision}

unfoldable AllEnabled : KeyMap → Type 0
AllEnabled m = All (λ p. p.1.enabled ≡ true) m

IsGood : KeyMap → Type 0
IsGood m = Apart m × AllEnabled m

ParsedGood : ParsedKeys → Type 0
ParsedGood (keys_ok m) = IsGood m
ParsedGood (keys_error e) = Unit

error-Good : (e : KeyError) → ParsedGood (keys_error e)
unfolding ParsedGood
error-Good e = tt

ok-Good : (m : KeyMap) → IsGood m → ParsedGood (keys_ok m)
unfolding ParsedGood
ok-Good m g = g

add_pair-Good :
    (operator secret : Bytes) (out : KeyMap)
    → IsGood out
    → ParsedGood (add_pair operator secret out)
unfolding IsGood ParsedGood AllEnabled
add_pair-Good operator secret out (a, n) = added (lookup_key secret out) refl
  where
    added :
        (o : Option KeyEntry)
        → lookup_key secret out ≡ o
        → ParsedGood (elim o [
          | some e ↦ keys_error (duplicate_secret operator)
          | none ↦ keys_ok (out ++ (secret, record { operator = operator; enabled = true }) ∷ [])
        ])
    added none h = (Apart-snoc secret _ out h a, All-append _ out _ (refl, tt) n)
    added (some e) h = tt

if-Good :
    (b : Bool) (r s : ParsedKeys) → ParsedGood r → ParsedGood s → ParsedGood (if b then r else s)
if-Good true r s p q = p
if-Good false r s p q = q

pair_at-Good :
    (part : Bytes) (o : Option ℕ) (out : KeyMap) → IsGood out → ParsedGood (pair_at part o out)
pair_at-Good part none out g = error-Good _
pair_at-Good part (some idx) out g =
    if-Good (idx == 0 || idx + 1 == length part) _ _ (error-Good _) (add_pair-Good _ _ out g)

parse_pair-Good : (part : Bytes) (out : KeyMap) → IsGood out → ParsedGood (parse_pair part out)
unfolding parse_pair
parse_pair-Good part out g =
    if-Good (eqb part []) _ _ (ok-Good out g) (pair_at-Good part (index colon part) out g)

and_then-Good :
    (r : ParsedKeys) (f : KeyMap → ParsedKeys)
    → ParsedGood r
    → ((m : KeyMap) → IsGood m → ParsedGood (f m))
    → ParsedGood (and_then r f)
unfolding ParsedGood
and_then-Good (keys_ok m) f g h = h m g
and_then-Good (keys_error e) f g h = tt

parse_pairs-Good : (ps : List Bytes) (out : KeyMap) → IsGood out → ParsedGood (parse_pairs ps out)
unfolding parse_pairs
parse_pairs-Good [] out g = ok-Good out g
parse_pairs-Good (p ∷ ps) out g = and_then-Good _ _ (parse_pair-Good _ out g) (parse_pairs-Good ps)

parse_key_pairs-Good : (spec : Bytes) (m : KeyMap) → parse_key_pairs spec ≡ keys_ok m → IsGood m
unfolding parse_key_pairs ParsedGood IsGood Apart AllEnabled
parse_key_pairs-Good spec m h = subst ParsedGood h (
    if-Good (eqb (trim_space spec) []) _ _ (ok-Good [] (tt, tt))
      (parse_pairs-Good (split b',' spec) [] (tt, tt)))

-- the operator of a secret in the configuration
unfoldable pub configured_operator : KeyMap → Bytes → Option Bytes
configured_operator m s = elim (lookup_key s m) [ none ↦ none | some e ↦ some e.operator ]

lookup-enabled :
    (s : Bytes) (m : KeyMap)
    → AllEnabled m
    → (e : KeyEntry) → lookup_key s m ≡ some e
    → e.enabled ≡ true
unfolding AllEnabled
lookup-enabled s [] n e h = cc
lookup-enabled s ((x, d) ∷ m) (t, n) e h = picked (eqb x s) (lookup-enabled s m n e) h
  where
    picked :
        (b : Bool)
        → (lookup_key s m ≡ some e → e.enabled ≡ true)
        → (if b then some d else lookup_key s m) ≡ some e
        → e.enabled ≡ true
    picked true r k = subst (λ z. z.enabled ≡ true) (some-injective _ _ k) t
    picked false r k = r k

accepted-configured :
    (s h : Bytes) (keys m : KeyMap)
    → AllEnabled m
    → lookup_key h keys ≡ or_found none (lookup_key s m)
    → accepted_operator keys h ≡ configured_operator m s
unfolding accepted_operator configured_operator
accepted-configured s h keys m n q = rw (accepted_operator, q) (found (lookup_key s m) refl)
  where
    found :
        (o : Option KeyEntry)
        → lookup_key s m ≡ o
        → (elim (or_found none o) [
          | none ↦ none
          | some e ↦ if e.enabled then some e.operator else none
        ])
          ≡ (elim o [ none ↦ none | some e ↦ some e.operator ])
    found none k = refl
    found (some e) k = rw (lookup-enabled s m n e k) refl

-- The map of hashes accepts what the configuration admits.
pub configured_accepted :
    (ext : External) (spec : Bytes) (m : KeyMap) (presented : Bytes)
    → parse_key_pairs spec ≡ keys_ok m
    → IsCollisionFree ext presented m
    → accepted_operator (new_keys ext m []) (ext.sha256_hex presented)
      ≡ configured_operator m presented
unfolding IsGood
configured_accepted ext spec m presented h f =
    let (a, n) = parse_key_pairs-Good spec m h in
    accepted-configured presented (ext.sha256_hex presented) (new_keys ext m []) m n
      (lookup-new_keys ext presented m [] f a)

-- With the keys that `ParseKeyPairs` reads from a text and `New` hashes, `Authenticate` accepts
-- exactly the secrets of that text, each as its operator, whichever statement the database fails: for
-- any presented key whose hash is that of no other secret of the text.
pub authenticate-configured :
    (ext : External) (spec : Bytes) (m : KeyMap) (at : Time) (presented remote path : Bytes)
    (w : World)
    → parse_key_pairs spec ≡ keys_ok m
    → IsCollisionFree ext presented m
    → (authenticate ext (new_keys ext m []) at presented remote path w).0
      ≡ ok (configured_operator m presented)
authenticate-configured ext spec m at presented remote path w h f =
    (authenticate-decision ext (new_keys ext m []) at presented remote path w).0
    ∙ ap ok (configured_accepted ext spec m presented h f)
