-- ===== src/Metrics/Buckets.antt =====
-- internal/metrics/metrics.go: into which bucket an observation falls.
use mathlib.Core.Option.{some-injective}
use mathlib.Core.List.{Mem, Pairwise, mem-cons_self, mem-cons_of_mem}
use device_telemetry_ro.Prelude.{
  if◌then◌else◌, Bool-cases, length, all, ℕ, suc, ◌-◌, ◌≤◌, ◌≡◌, refl, sym, ap, subst, ◌∙◌, inl,
  inr, Bool, true, false, not, ◌&&◌, some, List, [], ◌∷◌, arith,
}
use device_telemetry_ro.Domain.{Float64}
use device_telemetry_ro.External.{External}
use device_telemetry_ro.Metrics.{
  Histogram, change_at, bump_first, bump, last_of, bumped, observed_in, observed,
}

-- the first bound that is not below the observation, or the bucket after the last
abbrev pub bucket_of : External → Float64 → List Float64 → ℕ
bucket_of ext s [] = 0
bucket_of ext s (b ∷ bs) = if ext.le_float s b then 0 else suc (bucket_of ext s bs)

module _ (ext : External) (s : Float64) where
  -- none of the bounds admits the observation
  abbrev above_all : List Float64 → Bool
  above_all bs = all (λ b. not (ext.le_float s b)) bs

  split_above :
      (b : Float64) (bs : List Float64)
      → above_all (b ∷ bs) ≡ true
      → (ext.le_float s b ≡ false) × (above_all bs ≡ true)
  split_above b bs a = ground arith

  bump_first-above :
      (bs cs : List Float64)
      → above_all bs ≡ true
      → length bs ≤ length cs
      → bump_first ext s bs cs ≡ cs
  unfolding bump_first
  bump_first-above [] cs a h = refl
  bump_first-above (b ∷ bs) [] a h = absurd (omega arith)
  bump_first-above (b ∷ bs) (c ∷ cs) a h =
      let (e, rest) = split_above b bs a in
      rw e (ap (λ l. c ∷ l) (bump_first-above bs cs rest (omega arith)))

  bump_first-at :
      (bs cs : List Float64)
      → above_all bs ≡ false
      → length bs ≤ length cs
      → bump_first ext s bs cs ≡ change_at (bucket_of ext s bs) (bump ext) cs
  unfolding bump_first change_at
  bump_first-at [] cs a h = cc
  bump_first-at (b ∷ bs) [] a h = absurd (omega arith)
  bump_first-at (b ∷ bs) (c ∷ cs) a h = elim (Bool-cases (ext.le_float s b)) [
    | inl e ↦ rw e refl
    | inr e ↦ rw e (ap (λ l. c ∷ l) (bump_first-at bs cs (rest e) (omega arith)))
  ]
    where
      rest : ext.le_float s b ≡ false → above_all bs ≡ false
      rest e = ground arith

  bucket-above : (bs : List Float64) → above_all bs ≡ true → bucket_of ext s bs ≡ length bs
  bucket-above [] a = refl
  bucket-above (b ∷ bs) a =
      let (e, rest) = split_above b bs a in rw e (ap suc (bucket-above bs rest))

  last_cell :
      (n : ℕ) (bs cs : List Float64)
      → n ≡ length bs
      → length cs ≡ suc (length bs)
      → length cs - 1 ≡ n
  last_cell n bs cs e h = omega arith

  bumped-bucket :
      (b : Float64) (bs counts : List Float64)
      → length counts ≡ suc (length (b ∷ bs))
      → ext.lt_float (last_of ext b bs) s ≡ above_all (b ∷ bs)
      → bumped ext s b bs counts ≡ change_at (bucket_of ext s (b ∷ bs)) (bump ext) counts
  bumped-bucket b bs counts n law = given (above_all (b ∷ bs)) refl law
    where
      given :
          (a : Bool)
          → above_all (b ∷ bs) ≡ a
          → ext.lt_float (last_of ext b bs) s ≡ a
          → bumped ext s b bs counts ≡ change_at (bucket_of ext s (b ∷ bs)) (bump ext) counts
      given true a l =
          let m : length counts - 1 ≡ bucket_of ext s (b ∷ bs) =
            last_cell (bucket_of ext s (b ∷ bs)) (b ∷ bs) counts (bucket-above (b ∷ bs) a) n in
          rw l (
            ap (change_at (length counts - 1) (bump ext))
              (bump_first-above (b ∷ bs) counts a (omega arith))
            ∙ ap (λ k. change_at k (bump ext) counts) m)
      given false a l = rw l (bump_first-at (b ∷ bs) counts a (omega arith))

  -- Of ascending bounds, the last is below the observation exactly if none admits it.
  overflow :
      ((x y z : Float64)
        → ext.le_float x y ≡ true
        → ext.le_float y z ≡ true
        → ext.le_float x z ≡ true)
      → (b : Float64) (bs : List Float64)
      → ((c : Float64) → Mem c (b ∷ bs) → ext.lt_float c s ≡ not (ext.le_float s c))
      → Pairwise (λ c d. ext.le_float c d ≡ true) (b ∷ bs)
      → ext.lt_float (last_of ext b bs) s ≡ above_all (b ∷ bs)
  overflow trans b [] num up = only _ _ (num b mem-cons_self)
    where
      only : (l a : Bool) → l ≡ not a → l ≡ not a && true
      only l a h = ground arith
  overflow trans b (x ∷ xs) num (Pairwise.cons h up) =
      step (ext.le_float s b) (ext.le_float s x) (above_all xs)
        (λ e. trans s b x e (h x mem-cons_self))
        (overflow trans x xs (λ c m. num c (mem-cons_of_mem b m)) up)
    where
      step :
          {l : Bool} (first next rest : Bool)
          → (first ≡ true → next ≡ true)
          → l ≡ not next && rest
          → l ≡ not first && (not next && rest)
      step true true rest f e = e
      step true false rest f e = absurd (apart (f refl))
        where
          apart : false ≡ true → ⊥
          apart h = cc
      step false next rest f e = e

  -- For ascending bounds, `Observe` adds one to the count of exactly one bucket, that of the first bound
  -- that is not below the observation, or the one after the last bound, and leaves every other count:
  -- for a histogram with a count for each bound and one more, an order of the floats that is
  -- transitive, and an observation that compares with each bound, as all but a NaN do.
  pub observed-bucket :
      (h h' : Histogram) (b : Float64) (bs : List Float64)
      → h.bounds ≡ b ∷ bs
      → length h.counts ≡ suc (length h.bounds)
      → ((x y z : Float64)
          → ext.le_float x y ≡ true
          → ext.le_float y z ≡ true
          → ext.le_float x z ≡ true)
      → ((c : Float64) → Mem c h.bounds → ext.lt_float c s ≡ not (ext.le_float s c))
      → Pairwise (λ c d. ext.le_float c d ≡ true) h.bounds
      → observed ext s h ≡ some h'
      → h'.counts ≡ change_at (bucket_of ext s h.bounds) (bump ext) h.counts
  unfolding observed
  observed-bucket h h' b bs e n trans num up o =
      let q : some (record h {
        sum = ext.add_float h.sum s;
        count = bump ext h.count;
        counts = bumped ext s b bs h.counts;
      })
          ≡ some h' =
        subst (λ l. observed_in ext s h l ≡ some h') e o in
      ap (λ z. z.counts) (sym (some-injective _ _ q))
      ∙ bumped-bucket b bs h.counts (subst (λ l. length h.counts ≡ suc (length l)) e n) (
          overflow trans b bs
            (subst (λ l. (c : Float64) → Mem c l → ext.lt_float c s ≡ not (ext.le_float s c)) e num)
            (subst (λ l. Pairwise (λ c d. ext.le_float c d ≡ true) l) e up))
      ∙ ap (λ l. change_at (bucket_of ext s l) (bump ext) h.counts) (sym e)
