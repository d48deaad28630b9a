-- ===== src/Worker/Due.antt =====
-- internal/worker/worker.go: the deliveries of a pass that have the id of a row.
use device_telemetry_ro.Prelude.{
  ◌==◌, if◌then◌else◌, Bool-cases, length, keep, All, ℕ, suc, ◌≤◌, ◌≡◌, refl, sym, ap, subst, ◌∙◌,
  inl, inr, Bool, true, false, List, [], ◌∷◌, map, arith,
}
use device_telemetry_ro.Prelude.Keep.{keep-cons_true, keep-cons_false}
use device_telemetry_ro.Domain.{DeliveryRecord}
use device_telemetry_ro.Store.Deliveries.{earlier, insert_due, sort_due}

-- No two rows of the table have one id.
unfoldable pub UniqueIds : List DeliveryRecord → Type 0
UniqueIds ds = All (λ x. keep (λ d. d.id == x.id) ds ≡ x ∷ []) ds

module _ {ℓ} {A : Type ℓ} where
  pub keep_swap : (p q : A → Bool) (l : List A) → keep p (keep q l) ≡ keep q (keep p l)
  keep_swap p q [] = refl
  keep_swap p q (x ∷ xs) = elim (Bool-cases (p x)) [
    | inl b ↦ elim (Bool-cases (q x)) [
      | inl c ↦ rw b (rw c (rw b (ap (λ l. x ∷ l) (keep_swap p q xs))))
      | inr c ↦ rw b (rw c (keep_swap p q xs))
    ]
    | inr b ↦ elim (Bool-cases (q x)) [
      | inl c ↦ rw b (rw c (rw b (keep_swap p q xs)))
      | inr c ↦ rw b (rw c (keep_swap p q xs))
    ]
  ]

  pub length-keep : (p : A → Bool) (l : List A) → length (keep p l) ≤ length l
  length-keep p [] = omega arith
  length-keep p (x ∷ xs) = elim (Bool-cases (p x)) [
    | inl b ↦ rw b (omega (arith, length-keep p xs))
    | inr b ↦ rw b (omega (arith, length-keep p xs))
  ]

no_zero : (n : ℕ) → suc n ≡ 0 → ⊥
no_zero n h = omega arith

pub none_left {ℓ} : {A : Type ℓ} (l : List A) → length l ≡ 0 → l ≡ []
none_left [] h = refl
none_left (x ∷ xs) h = absurd (no_zero _ h)

at_most {ℓ} : {A : Type ℓ} (l : List A) → suc (length l) ≤ 1 → length l ≡ 0
at_most l h = omega arith

module _ (p : DeliveryRecord → Bool) where
  keep-insert_other :
      (d : DeliveryRecord) (l : List DeliveryRecord)
      → p d ≡ false
      → keep p (insert_due d l) ≡ keep p l
  unfolding insert_due
  keep-insert_other d [] e = rw e refl
  keep-insert_other d (x ∷ xs) e = elim (Bool-cases (earlier x d)) [
    | inl b ↦ rw b (ap (λ l. if p x then x ∷ l else l) (keep-insert_other d xs e))
    | inr b ↦ rw b (rw e refl)
  ]

  keep-insert_only :
      (d : DeliveryRecord) (l : List DeliveryRecord)
      → p d ≡ true
      → length (keep p l) ≡ 0
      → keep p (insert_due d l) ≡ d ∷ []
  unfolding insert_due
  keep-insert_only d [] e n = rw e refl
  keep-insert_only d (x ∷ xs) e n = elim (Bool-cases (p x)) [
    | inl c ↦
        let n2 = subst (λ z. length z ≡ 0) (keep-cons_true p x xs c) n in absurd (no_zero _ n2)
    | inr c ↦
        only (subst (λ z. length z ≡ 0) (keep-cons_false p x xs c) n) c (keep-insert_only d xs e)
  ]
    where
      only :
          length (keep p xs) ≡ 0
          → p x ≡ false
          → (length (keep p xs) ≡ 0 → keep p (insert_due d xs) ≡ d ∷ [])
          → keep p (insert_due d (x ∷ xs)) ≡ d ∷ []
      only z c r = elim (Bool-cases (earlier x d)) [
        | inl b ↦ rw b (rw c (r z))
        | inr b ↦ rw b (rw e (rw c (ap (λ l. d ∷ l) (none_left _ z))))
      ]

  -- At most one element passes the test: sorting makes no difference.
  pub keep-sort_due :
      (l : List DeliveryRecord) → length (keep p l) ≤ 1 → keep p (sort_due l) ≡ keep p l
  unfolding sort_due
  keep-sort_due [] h = refl
  keep-sort_due (x ∷ xs) h = elim (Bool-cases (p x)) [
    | inl c ↦
        let z = at_most (keep p xs) (subst (λ z. length z ≤ 1) (keep-cons_true p x xs c) h) in
        keep-insert_only x (sort_due xs) c (ap length (keep-sort_due xs (omega arith)) ∙ z)
        ∙ rw c (ap (λ l. x ∷ l) (sym (none_left _ z)))
    | inr c ↦
        keep-insert_other x (sort_due xs) c
        ∙ keep-sort_due xs (subst (λ z. length z ≤ 1) (keep-cons_false p x xs c) h)
        ∙ sym (keep-cons_false p x xs c)
  ]

length-insert_due :
    (d : DeliveryRecord) (l : List DeliveryRecord) → length (insert_due d l) ≡ suc (length l)
unfolding insert_due
length-insert_due d [] = refl
length-insert_due d (x ∷ xs) = elim (Bool-cases (earlier x d)) [
  | inl b ↦ rw b (ap suc (length-insert_due d xs))
  | inr b ↦ rw b refl
]

pub length-sort_due : (l : List DeliveryRecord) → length (sort_due l) ≡ length l
unfolding sort_due
length-sort_due [] = refl
length-sort_due (x ∷ xs) = length-insert_due x (sort_due xs) ∙ ap suc (length-sort_due xs)

pub All-map {ℓ κ ι} :
    {A : Type ℓ} (P : A → Type κ) (Q : A → Type ι) (f : A → A) (l : List A)
    → ((x : A) → P x → Q (f x))
    → All P l
    → All Q (map f l)
All-map P Q f [] h a = tt
All-map P Q f (x ∷ xs) h (p, a) = (h x p, All-map P Q f xs h a)

keep-map {ℓ} :
    {A : Type ℓ} (f : A → A) (p q : A → Bool) (l : List A)
    → ((y : A) → p (f y) ≡ q y)
    → keep p (map f l) ≡ map f (keep q l)
keep-map f p q [] h = refl
keep-map f p q (y ∷ ys) h = elim (Bool-cases (q y)) [
  | inl b ↦ rw (h y) (rw b (ap (λ l. f y ∷ l) (keep-map f p q ys h)))
  | inr b ↦ rw (h y) (rw b (keep-map f p q ys h))
]

pub UniqueIds-map :
    (f : DeliveryRecord → DeliveryRecord) (l : List DeliveryRecord)
    → ((x : DeliveryRecord) → (f x).id ≡ x.id)
    → UniqueIds l
    → UniqueIds (map f l)
unfolding UniqueIds
UniqueIds-map f l same u = All-map _ _ f l (λ x e. same_keep x l ∙ ap (map f) e) u
  where
    same_keep :
        (x : DeliveryRecord) (l : List DeliveryRecord)
        → keep (λ d. d.id == (f x).id) (map f l) ≡ map f (keep (λ d. d.id == x.id) l)
    same_keep x l =
        keep-map f (λ d. d.id == (f x).id) (λ d. d.id == x.id) l
          (λ y. ap (λ n. n == (f x).id) (same y) ∙ ap (λ n. y.id == n) (same x))
