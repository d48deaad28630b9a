-- ===== src/Metrics.antt =====
-- internal/metrics/metrics.go: counters, gauges and histograms, and the text that shows them. An
-- instrument is a cell of the registry and a name for it, as a later one of the same name takes the
-- name over and leaves the earlier cell to those who hold it. A map is an association list, in the
-- order in which a range over it goes; the mutexes are left out.
pub mod Render
pub mod Buckets
pub mod Order
use device_telemetry_ro.Prelude.{
  if◌then◌else◌, length, ℕ, zero, suc, ◌-◌, Option, none, some, List, [], ◌∷◌, ◌++◌,
}
use device_telemetry_ro.Prelude.Int.{pos}
use device_telemetry_ro.Prelude.Bytes.{Bytes, eqb}
use device_telemetry_ro.Domain.{Float64}
use device_telemetry_ro.External.{External}

-- `Counter` and `Gauge`
pub record Counter : Type 0 where
  pub value : Float64
  pub help : Bytes
  pub label : List Bytes

pub record Gauge : Type 0 where
  pub value : Float64
  pub help : Bytes
  pub label : List Bytes

-- `Histogram`
pub record Histogram : Type 0 where
  pub help : Bytes
  pub label : List Bytes
  pub bounds : List Float64
  pub counts : List Float64
  pub sum : Float64
  pub count : Float64

abbrev pub Names : Type 0
Names = List (Bytes × ℕ)

-- `Registry`
pub record Registry : Type 0 where
  pub counters : Names
  pub gauges : Names
  pub histograms : Names
  pub counter_cells : List Counter
  pub gauge_cells : List Gauge
  pub histogram_cells : List Histogram

-- `NewRegistry`
unfoldable pub new_registry : Registry
new_registry = record {
  counters = [];
  gauges = [];
  histograms = [];
  counter_cells = [];
  gauge_cells = [];
  histogram_cells = [];
}

-- `m[name] = cell`
unfoldable pub put_name : Bytes → ℕ → Names → Names
put_name name cell [] = (name, cell) ∷ []
put_name name cell ((x, c) ∷ m) =
    let rest = put_name name cell m in if eqb x name then (x, cell) ∷ m else (x, c) ∷ rest

abbrev pub cell_of : Bytes → Names → Option ℕ
cell_of name [] = none
cell_of name ((x, c) ∷ m) = if eqb x name then some c else cell_of name m

-- the cell of a pointer, changed
unfoldable pub change_at {ℓ} : {A : Type ℓ} → ℕ → (A → A) → List A → List A
change_at n f [] = []
change_at zero f (x ∷ xs) = f x ∷ xs
change_at (suc n) f (x ∷ xs) = x ∷ change_at n f xs

abbrev pub nth {ℓ} : {A : Type ℓ} → ℕ → List A → Option A
nth n [] = none
nth zero (x ∷ xs) = some x
nth (suc n) (x ∷ xs) = nth n xs

module _ (ext : External) where
  abbrev pub zero_float : Float64
  zero_float = ext.constant (pos 0) 0

  abbrev pub one_float : Float64
  one_float = ext.constant (pos 1) 0

  -- `NewCounter`: the pointer, and the registry
  unfoldable pub new_counter : Bytes → Bytes → List Bytes → Registry → ℕ × Registry
  new_counter name help labels r =
      let cell = length r.counter_cells in
      (
        cell,
        record r {
          counters = put_name name cell r.counters;
          counter_cells =
              r.counter_cells ++ record { value = zero_float; help = help; label = labels } ∷ [];
        },
      )

  -- `NewGauge`
  unfoldable pub new_gauge : Bytes → Bytes → List Bytes → Registry → ℕ × Registry
  new_gauge name help labels r =
      let cell = length r.gauge_cells in
      (
        cell,
        record r {
          gauges = put_name name cell r.gauges;
          gauge_cells =
              r.gauge_cells ++ record { value = zero_float; help = help; label = labels } ∷ [];
        },
      )

  abbrev zeros : ℕ → List Float64
  zeros zero = []
  zeros (suc n) = zero_float ∷ zeros n

  -- `NewHistogram`
  unfoldable pub new_histogram : Bytes → Bytes → List Float64 → List Bytes → Registry → ℕ × Registry
  new_histogram name help bounds labels r =
      let cell = length r.histogram_cells in
      (
        cell,
        record r {
          histograms = put_name name cell r.histograms;
          histogram_cells =
              r.histogram_cells
              ++ record {
                help = help;
                label = labels;
                bounds = bounds;
                counts = zeros (suc (length bounds));
                sum = zero_float;
                count = zero_float;
              }
                ∷ [];
        },
      )

  -- `defaultBounds`
  unfoldable pub default_bounds : List Float64
  default_bounds =
      ext.constant (pos 5) 3
      ∷ ext.constant (pos 1) 2
      ∷ ext.constant (pos 25) 3
      ∷ ext.constant (pos 5) 2
      ∷ ext.constant (pos 1) 1
      ∷ ext.constant (pos 25) 2
      ∷ ext.constant (pos 5) 1
      ∷ ext.constant (pos 1) 0
      ∷ ext.constant (pos 25) 1
      ∷ ext.constant (pos 5) 0
      ∷ ext.constant (pos 10) 0
      ∷ []

  -- `NewDefaultHistogram`
  unfoldable pub new_default_histogram : Bytes → Bytes → Registry → ℕ × Registry
  new_default_histogram name help r = new_histogram name help default_bounds [] r

  -- `Counter.Add` and `Counter.Inc`
  unfoldable pub add_counter : ℕ → Float64 → Registry → Registry
  add_counter cell n r = record r {
    counter_cells =
        change_at cell (λ c. record c { value = ext.add_float c.value n }) r.counter_cells;
  }

  unfoldable pub inc_counter : ℕ → Registry → Registry
  inc_counter cell r = add_counter cell one_float r

  -- `Gauge.Set`, `Gauge.Add` and `Gauge.Inc`
  unfoldable pub set_gauge : ℕ → Float64 → Registry → Registry
  set_gauge cell n r = record r {
    gauge_cells = change_at cell (λ g. record g { value = n }) r.gauge_cells;
  }

  unfoldable pub add_gauge : ℕ → Float64 → Registry → Registry
  add_gauge cell n r = record r {
    gauge_cells = change_at cell (λ g. record g { value = ext.add_float g.value n }) r.gauge_cells;
  }

  unfoldable pub inc_gauge : ℕ → Registry → Registry
  inc_gauge cell r = add_gauge cell one_float r

  -- the loop of `Observe`
  unfoldable pub bump_first : Float64 → List Float64 → List Float64 → List Float64
  bump_first s [] counts = counts
  bump_first s (b ∷ bs) [] = []
  bump_first s (b ∷ bs) (c ∷ cs) =
      let rest = bump_first s bs cs in
      if ext.le_float s b then ext.add_float c one_float ∷ cs else c ∷ rest

  abbrev pub bump : Float64 → Float64
  bump c = ext.add_float c one_float

  abbrev pub last_of : Float64 → List Float64 → Float64
  last_of b [] = b
  last_of b (x ∷ xs) = last_of x xs

  -- the counts after `Observe`, for the bounds `b ∷ bs`
  abbrev pub bumped : Float64 → Float64 → List Float64 → List Float64 → List Float64
  bumped s b bs counts =
      if ext.lt_float (last_of b bs) s
      then change_at (length counts - 1) bump (bump_first s (b ∷ bs) counts)
      else bump_first s (b ∷ bs) counts

  abbrev pub observed_in : Float64 → Histogram → List Float64 → Option Histogram
  observed_in s h [] = none
  observed_in s h (b ∷ bs) = some (record h {
    sum = ext.add_float h.sum s;
    count = bump h.count;
    counts = bumped s b bs h.counts;
  })

  -- `Observe`, which panics when there is no bound
  unfoldable pub observed : Float64 → Histogram → Option Histogram
  observed s h = observed_in s h h.bounds

  abbrev recorded : Registry → ℕ → Option Histogram → Option Registry
  recorded r cell none = none
  recorded r cell (some h) =
      some (record r { histogram_cells = change_at cell (λ _. h) r.histogram_cells })

  -- `Observe` of the histogram of a pointer
  unfoldable pub observe : ℕ → Float64 → Registry → Option Registry
  observe cell s r = elim (nth cell r.histogram_cells) [
    | none ↦ none
    | some h ↦ recorded r cell (observed s h)
  ]
