-- ===== src/Text/Cut.antt =====
-- strings.LastIndex cuts a text at the last of its separators, and strings.Split at each of them.
use device_telemetry_ro.Prelude.{
  ◌==◌, length, take, drop, all, ℕ, zero, suc, ◌+◌, ◌≡◌, refl, ap, ◌∙◌, Bool, true, not, none, some,
  [], ◌∷◌, ◌++◌, arith,
}
use device_telemetry_ro.Prelude.Bytes.{Bytes}
use device_telemetry_ro.Text.{split, last_index}

-- no byte of the text is `b`
abbrev pub lacks : ℕ → Bytes → Bool
lacks b s = all (λ c. not (c == b)) s

pub last_index_of_lacks : (b : ℕ) (s : Bytes) → lacks b s ≡ true → last_index b s ≡ none
unfolding last_index
last_index_of_lacks b [] h = refl
last_index_of_lacks b (c ∷ s) h = ground (arith, last_index_of_lacks b s)

pub last_index-append :
    (b : ℕ) (front s : Bytes)
    → last_index b s ≡ none
    → last_index b (front ++ b ∷ s) ≡ some (length front)
unfolding last_index
last_index-append b [] s h = ground arith
last_index-append b (c ∷ front) s h = ground (arith, last_index-append b front s)

pub take_front : (front s : Bytes) → take (length front) (front ++ s) ≡ front
take_front [] s = refl
take_front (c ∷ front) s = ap (◌∷◌ c) (take_front front s)

drop-suc : (front : Bytes) (b : ℕ) (s : Bytes) → drop (suc (length front)) (front ++ b ∷ s) ≡ s
drop-suc [] b s = refl
drop-suc (c ∷ front) b s = drop-suc front b s

pub drop_front : (front : Bytes) (b : ℕ) (s : Bytes) → drop (length front + 1) (front ++ b ∷ s) ≡ s
drop_front front b s =
    ap (λ n. drop n (front ++ b ∷ s))
      (let e : length front + 1 ≡ suc (length front) = omega arith in e)
    ∙ drop-suc front b s

cut_suc :
    (b : ℕ) (s : Bytes) (i : ℕ)
    → last_index b s ≡ some i
    → (s ≡ take i s ++ b ∷ drop (suc i) s) × (last_index b (drop (suc i) s) ≡ none)
unfolding last_index
cut_suc b [] zero h = cc
cut_suc b [] (suc i) h = cc
cut_suc b (c ∷ s) zero h = ground arith
cut_suc b (c ∷ s) (suc i) h = ground (arith, cut_suc b s i)

-- Where LastIndex finds a separator, the text is cut there and no other stands behind it.
pub last_index_cut :
    (b : ℕ) (s : Bytes) (i : ℕ)
    → last_index b s ≡ some i
    → (s ≡ take i s ++ b ∷ drop (i + 1) s) × (last_index b (drop (i + 1) s) ≡ none)
last_index_cut b s i h = let e : i + 1 ≡ suc i = omega arith in rw e (cut_suc b s i h)

pub split-lacks : (b : ℕ) (s : Bytes) → lacks b s ≡ true → split b s ≡ s ∷ []
unfolding split
split-lacks b [] h = refl
split-lacks b (c ∷ s) h = ground (arith, split-lacks b s)

pub split-append : (b : ℕ) (s r : Bytes) → lacks b s ≡ true → split b (s ++ b ∷ r) ≡ s ∷ split b r
unfolding split
split-append b [] r h = ground arith
split-append b (c ∷ s) r h = ground (arith, split-append b s r)
