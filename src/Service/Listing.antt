-- ===== src/Service/Listing.antt =====
-- internal/service/events.go and the listings of service.go and rules.go.
use device_telemetry_ro.Prelude.Int.{ℤ}
use device_telemetry_ro.Prelude.Bytes.{Bytes}
use device_telemetry_ro.Domain.{Event, RouteRule, RouteRuleChangeLog, ApiKeyAudit}
use device_telemetry_ro.External.{External}
use device_telemetry_ro.Db.{◌>>=◌, Exec, pure}
use device_telemetry_ro.Store.Rules.{list_rules, change_log}
use device_telemetry_ro.Store.Deliveries.{pending_count}
use device_telemetry_ro.Store.Audit.{list_audit, device_count, event_count}
use device_telemetry_ro.Store.Listing.{EventFilter, query_events}
use device_telemetry_ro.Prelude.{ℕ, false, List}

-- `EventPage`
pub record EventPage : Type 0 where
  pub items : List Event
  pub total : ℕ
  pub page : ℤ
  pub size : ℤ

-- `QueryEvents`. An `EventQuery` has the fields of a filter; the page that it returns has the page and
-- the size as they were asked for.
unfoldable pub events_page : External → EventFilter → Exec EventPage
events_page ext f = query_events ext f >>= λ (items, total).
    pure (record { items = items; total = total; page = f.page; size = f.size })

-- `Stats`
pub record Stats : Type 0 where
  pub devices : ℕ
  pub events : ℕ
  pub pending : ℕ

unfoldable pub stats : Exec Stats
stats = do
  devices ← device_count
  events ← event_count
  pending ← pending_count
  pure (record { devices = devices; events = events; pending = pending })

-- `ListRules`
unfoldable pub live_rules : Exec (List RouteRule)
live_rules = list_rules false

-- `RuleChanges`
unfoldable pub rule_changes : Bytes → Exec (List RouteRuleChangeLog)
rule_changes rule_id = change_log rule_id

-- `Service.ListAudit`
unfoldable pub audit_entries : ℤ → Exec (List ApiKeyAudit)
audit_entries limit = list_audit limit
