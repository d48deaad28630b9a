-- ===== src/Router/Select.antt =====
-- internal/router/router.go: which rules `Match` returns.
use mathlib.Core.List.{Mem, Perm}
use mathlib.Core.List.Perm
use device_telemetry_ro.Prelude.{keep, ◌≡◌, ◌↔◌, true, none, List, arith}
use device_telemetry_ro.Prelude.Keep.{mem-keep→, mem-keep←, keep-perm}
use device_telemetry_ro.Domain.{Event, RouteRule}
use device_telemetry_ro.External.{External}
use device_telemetry_ro.Expr.{match_expr}
use device_telemetry_ro.Router.{sort_rules, match_device, match_metrics, selects, match_rules}
use device_telemetry_ro.Router.Order.{
  IsSorted, DistinctIds, sort_rules-IsSorted, sort_rules-perm, IsSorted-unique,
}

mem-match_rules :
    (ext : External) (ev : Event) (rules : List RouteRule) (r : RouteRule)
    → Mem r (match_rules ext ev rules) ↔ (Mem r rules × (selects ext ev r ≡ true))
unfolding match_rules
mem-match_rules ext ev rules r = (
  λ m.
      mem-keep→ (selects ext ev) r rules
        ((Perm.mem_iff (sort_rules-perm (keep (selects ext ev) rules))).0 m),
  λ h.
      (Perm.mem_iff (sort_rules-perm (keep (selects ext ev) rules))).1
        (mem-keep← (selects ext ev) r rules h.1 h.0),
)

-- A rule that is disabled or deleted is never selected, whatever its matcher.
selects-guards :
    (ext : External) (ev : Event) (r : RouteRule)
    → selects ext ev r ≡ true
    → (r.enabled ≡ true)
      × (r.deleted_at ≡ none)
      × (match_device ext r.matcher.device_pattern ev.device_id ≡ true)
      × (match_metrics ext r.matcher.metrics ev.metric ≡ true)
      × (match_expr ext r.matcher.expr ev ≡ true)
unfolding selects
selects-guards ext ev r h = ground arith

-- Sorting the selected rules by any means gives what `Match` gives, in the order of falling
-- priority and rising ids, if no two rules share an id.
pub match_rules_unique :
    (ext : External) (ev : Event) (rules sorted : List RouteRule)
    → DistinctIds sorted
    → IsSorted sorted
    → Perm sorted (keep (selects ext ev) rules)
    → sorted ≡ match_rules ext ev rules
unfolding match_rules
match_rules_unique ext ev rules sorted d s p =
    IsSorted-unique sorted (sort_rules (keep (selects ext ev) rules)) d s
      (sort_rules-IsSorted (keep (selects ext ev) rules))
      (Perm.trans p (Perm.symm (sort_rules-perm (keep (selects ext ev) rules))))

-- The order in which the store lists its rules does not change the match, if no two of them share
-- an id.
pub match_rules-perm :
    (ext : External) (ev : Event) {l r : List RouteRule}
    → DistinctIds l
    → Perm l r
    → match_rules ext ev l ≡ match_rules ext ev r
unfolding match_rules
match_rules-perm ext ev {l} {r} d p =
    match_rules_unique ext ev r (match_rules ext ev l)
      (λ a b ma mb e.
        d a b ((mem-match_rules ext ev l a).0 ma).0 ((mem-match_rules ext ev l b).0 mb).0 e)
      (sort_rules-IsSorted (keep (selects ext ev) l))
      (Perm.trans (sort_rules-perm (keep (selects ext ev) l)) (keep-perm (selects ext ev) p))
