-- ===== src/Router.antt =====
-- internal/router/router.go: which rules an event matches, in what order, and their topics.
pub mod Order
pub mod Select
use device_telemetry_ro.Prelude.{
  if◌then◌else◌, keep, any, Bool, true, false, not, ◌||◌, Option, none, some, List, [], ◌∷◌, map,
}
use device_telemetry_ro.Prelude.Int.{ltb_ℤ, eqb_ℤ}
use device_telemetry_ro.Prelude.Bytes.{Bytes, eqb, ltb_bytes}
use device_telemetry_ro.Domain.{Event, RouteRule}
use device_telemetry_ro.External.{External}
use device_telemetry_ro.Expr.{match_expr}

-- the `less` of sort.Slice: higher priority first, then the smaller rule id
unfoldable pub before : RouteRule → RouteRule → Bool
before a b =
    if not (eqb_ℤ a.priority b.priority)
    then ltb_ℤ b.priority a.priority
    else ltb_bytes a.rule_id b.rule_id

unfoldable pub insert_rule : RouteRule → List RouteRule → List RouteRule
insert_rule r [] = r ∷ []
insert_rule r (x ∷ xs) = let rest = insert_rule r xs in if before x r then x ∷ rest else r ∷ x ∷ xs

-- sort.Slice, which may leave ties in any order; Router/Order is about that.
unfoldable pub sort_rules : List RouteRule → List RouteRule
unfolding insert_rule
sort_rules [] = []
sort_rules (x ∷ xs) = insert_rule x (sort_rules xs)

abbrev is_nil {ℓ} : {A : Type ℓ} → Option A → Bool
is_nil none = true
is_nil (some a) = false

module _ (ext : External) where
  unfoldable pub match_device : Bytes → Bytes → Bool
  match_device pattern_ device_id =
      if eqb pattern_ []
      then true
      else elim (ext.path_match pattern_ device_id) [ none ↦ false | some matched ↦ matched ]

  unfoldable pub match_metrics : Option (List Bytes) → Bytes → Bool
  match_metrics none metric = true
  match_metrics (some []) metric = true
  match_metrics (some (m ∷ ms)) metric = any (λ x. ext.equal_fold x metric) (m ∷ ms)

  -- the guards of the loop of `Match`
  unfoldable pub selects : Event → RouteRule → Bool
  selects event rl =
      if not rl.enabled || not (is_nil rl.deleted_at)
      then false
      else if not (match_device rl.matcher.device_pattern event.device_id)
      then false
      else if not (match_metrics rl.matcher.metrics event.metric)
      then false
      else match_expr ext rl.matcher.expr event

  unfoldable pub match_rules : Event → List RouteRule → List RouteRule
  match_rules event rules = sort_rules (keep (selects event) rules)

unfoldable pub topics : List RouteRule → List Bytes
topics rules = map (λ r. r.topic) rules
