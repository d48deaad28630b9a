-- ===== src/Auth/Keys.antt =====
-- internal/auth/auth.go: the keys of a configuration, from their text to the map of hashes.
-- The secrets differ from each other.
use device_telemetry_ro.Prelude.{
  if◌then◌else◌, Bool-cases, All, ◌≡◌, refl, sym, ap, subst, ◌∙◌, inl, inr, Bool, true, false,
  Option, none, some, [], ◌∷◌, ◌++◌,
}
use device_telemetry_ro.Prelude.Bytes.{Bytes, eqb, eqb_refl, eqb→eq}
use device_telemetry_ro.External.{External}
use device_telemetry_ro.Auth.{KeyEntry, KeyMap, lookup_key, put_key, new_keys}

unfoldable pub Apart : KeyMap → Type 0
Apart [] = Unit
Apart ((k, e) ∷ m) = (lookup_key k m ≡ none) × Apart m

-- No secret of the map but the presented one has its hash.
unfoldable pub IsCollisionFree : External → Bytes → KeyMap → Type 0
IsCollisionFree ext s m = All (λ p. ext.sha256_hex p.0 ≡ ext.sha256_hex s → p.0 ≡ s) m

eqb_sym : (s t : Bytes) → eqb s t ≡ false → eqb t s ≡ false
eqb_sym s t h = elim (Bool-cases (eqb t s)) [
  | inl b ↦
      let q = eqb→eq t s b in
      let r = eqb_refl t in let k = subst (λ z. eqb z t ≡ false) (sym q) h in cc
  | inr b ↦ b
]

lookup-cons :
    (k x : Bytes) (e : KeyEntry) (m : KeyMap)
    → lookup_key k ((x, e) ∷ m) ≡ none
    → (eqb x k ≡ false) × (lookup_key k m ≡ none)
lookup-cons k x e m h = elim (Bool-cases (eqb x k)) [
  | inl b ↦
      let q : some e ≡ none = subst (λ z. (if z then some e else lookup_key k m) ≡ none) b h in cc
  | inr b ↦ (b, subst (λ z. (if z then some e else lookup_key k m) ≡ none) b h)
]

lookup-snoc :
    (k x : Bytes) (e : KeyEntry) (m : KeyMap)
    → lookup_key k m ≡ none
    → eqb x k ≡ false
    → lookup_key k (m ++ (x, e) ∷ []) ≡ none
lookup-snoc k x e [] h b = rw b refl
lookup-snoc k x e ((y, d) ∷ m) h b =
    let (a, l) = lookup-cons k y d m h in rw a (lookup-snoc k x e m l b)

pub Apart-snoc :
    (k : Bytes) (e : KeyEntry) (m : KeyMap)
    → lookup_key k m ≡ none
    → Apart m
    → Apart (m ++ (k, e) ∷ [])
unfolding Apart
Apart-snoc k e [] h a = (refl, tt)
Apart-snoc k e ((y, d) ∷ m) h (n, a) =
    let (b, l) = lookup-cons k y d m h in
    (lookup-snoc y k e m n (eqb_sym y k b), Apart-snoc k e m l a)

same_key {ℓ} :
    {A : Type ℓ} (c : Bool) (a b d : A)
    → (if c then a else d) ≡ (if c then a else if c then b else d)
same_key true a b d = refl
same_key false a b d = refl

other_key {ℓ} :
    {A : Type ℓ} (p q : Bool) (a b c : A)
    → (p ≡ true → q ≡ true → ⊥)
    → (if p then b else if q then a else c) ≡ (if q then a else if p then b else c)
other_key true true a b c h = absurd (h refl refl)
other_key true false a b c h = refl
other_key false q a b c h = refl

lookup-put :
    (h k : Bytes) (e : KeyEntry) (m : KeyMap)
    → lookup_key h (put_key k e m) ≡ (if eqb k h then some e else lookup_key h m)
lookup-put h k e [] = refl
lookup-put h k e ((x, d) ∷ m) = elim (Bool-cases (eqb x k)) [
  | inl b ↦ rw b (rw (eqb→eq x k b) (same_key (eqb k h) (some e) (some d) (lookup_key h m)))
  | inr b ↦ rw b (
      rw (lookup-put h k e m)
        (other_key (eqb x h) (eqb k h) (some e) (some d) (lookup_key h m) (λ p q. apart p q b)))
]
  where
    apart : eqb x h ≡ true → eqb k h ≡ true → eqb x k ≡ false → ⊥
    apart p q b =
        let r = eqb→eq x h p ∙ sym (eqb→eq k h q) in
        let t = eqb_refl k in let u = subst (λ z. eqb z k ≡ false) r b in cc

abbrev pub or_found : Option KeyEntry → Option KeyEntry → Option KeyEntry
or_found other none = other
or_found other (some e) = some e

module _ (ext : External) (s : Bytes) where
  put-here :
      (x : Bytes) (e : KeyEntry) (m : KeyMap)
      → x ≡ s
      → lookup_key (ext.sha256_hex s) (put_key (ext.sha256_hex x) e m) ≡ some e
  put-here x e m q =
      rw (lookup-put (ext.sha256_hex s) (ext.sha256_hex x) e m)
        (rw q (rw (eqb_refl (ext.sha256_hex s)) refl))

  put-other :
      (x : Bytes) (e : KeyEntry) (m : KeyMap)
      → eqb (ext.sha256_hex x) (ext.sha256_hex s) ≡ false
      → lookup_key (ext.sha256_hex s) (put_key (ext.sha256_hex x) e m)
        ≡ lookup_key (ext.sha256_hex s) m
  put-other x e m q = rw (lookup-put (ext.sha256_hex s) (ext.sha256_hex x) e m) (rw q refl)

  hash_apart :
      (x : Bytes)
      → (ext.sha256_hex x ≡ ext.sha256_hex s → x ≡ s)
      → eqb x s ≡ false
      → eqb (ext.sha256_hex x) (ext.sha256_hex s) ≡ false
  hash_apart x c b = elim (Bool-cases (eqb (ext.sha256_hex x) (ext.sha256_hex s))) [
    | inl t ↦
        let q = c (eqb→eq _ _ t) in
        let r = eqb_refl s in let u = subst (λ z. eqb z s ≡ false) q b in cc
    | inr t ↦ t
  ]

  pub lookup-new_keys :
      (keys m : KeyMap)
      → IsCollisionFree ext s keys
      → Apart keys
      → lookup_key (ext.sha256_hex s) (new_keys ext keys m)
        ≡ or_found (lookup_key (ext.sha256_hex s) m) (lookup_key s keys)
  unfolding IsCollisionFree Apart new_keys
  lookup-new_keys [] m f a = refl
  lookup-new_keys ((x, e) ∷ keys) m (c, f) (n, a) = elim (Bool-cases (eqb x s)) [
    | inl b ↦
        let q = eqb→eq x s b in
        let n' : lookup_key s keys ≡ none = subst (λ z. lookup_key z keys ≡ none) q n in
        rw b (lookup-new_keys keys (put_key (ext.sha256_hex x) e m) f a ∙ rw n' (put-here x e m q))
    | inr b ↦ rw b (
        lookup-new_keys keys (put_key (ext.sha256_hex x) e m) f a
        ∙ ap (λ z. or_found z (lookup_key s keys)) (put-other x e m (hash_apart x c b)))
  ]
