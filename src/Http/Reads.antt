-- ===== src/Http/Reads.antt =====
-- internal/httpapi: the requests that only read.
use device_telemetry_ro.Prelude.Int.{ℤ}
use device_telemetry_ro.Prelude.Bytes.{Bytes, codes, eqb}
use device_telemetry_ro.Domain.Errors.{Result, ok, err}
use device_telemetry_ro.External.{External}
use device_telemetry_ro.Parser.{ParseError}
use device_telemetry_ro.Db.{World}
use device_telemetry_ro.Db.Atomic.{
  IsReadOnly, query-IsReadOnly, pure-IsReadOnly, throw-IsReadOnly, bind-IsReadOnly,
}
use device_telemetry_ro.Store.Rules.{get_rule, list_rules, change_log}
use device_telemetry_ro.Store.Deliveries.{pending_count, list_deliveries_by_event}
use device_telemetry_ro.Store.Audit.{list_audit, device_count, event_count}
use device_telemetry_ro.Store.Listing.{list_devices, EventFilter, or_refused, query_events}
use device_telemetry_ro.Service.RuleChanges.{find_rule}
use device_telemetry_ro.Service.Listing.{
  events_page, stats, live_rules, rule_changes, audit_entries,
}
use device_telemetry_ro.Service.Replay.{list_deliveries}
use device_telemetry_ro.Service.Safe.{
  found-IsReadOnly, find_device-IsReadOnly, find_event-IsReadOnly,
}
use device_telemetry_ro.Metrics.Render.{keys}
use device_telemetry_ro.Auth.{KeyMap}
use device_telemetry_ro.Http.{Request}
use device_telemetry_ro.Http.Handlers.{
  Env, Codec, handle_list_devices, handle_get_device, handle_list_rules, handle_get_rule,
  handle_rule_changes, handle_list_events, handle_get_event, handle_stats, handle_list_deliveries,
  handle_list_audit,
}
use device_telemetry_ro.Http.Server.{
  Route, healthz, metrics_route, create_device_route, list_devices_route, telemetry_route,
  create_rule_route, list_rules_route, list_events_route, stats_route, audit_route, assets_route,
  index_route, get_device_route, device_status_route, get_rule_route, update_rule_route,
  delete_rule_route, rule_changes_route, get_event_route, list_deliveries_route, replay_route,
  pattern_of, Mux, requires_auth, Static, handle_assets, handle_index, handle, routed, serve_mux,
  guarded, serve,
}
use device_telemetry_ro.Http.Rolled.{IsUntouched, answer-IsUntouched, respond-IsUntouched}
use device_telemetry_ro.Http.Routing.{reads, IsMux, served-get, reads-requires_auth}
use device_telemetry_ro.Prelude.{◌≡◌, refl, Bool, true, false, Option, none, some, arith}

list_devices-IsReadOnly : IsReadOnly list_devices
unfolding list_devices
list_devices-IsReadOnly = query-IsReadOnly _

find_rule-IsReadOnly : (id : Bytes) → IsReadOnly (find_rule id)
unfolding find_rule get_rule
find_rule-IsReadOnly id = found-IsReadOnly _ _ (query-IsReadOnly _)

live_rules-IsReadOnly : IsReadOnly live_rules
unfolding live_rules list_rules
live_rules-IsReadOnly = query-IsReadOnly _

rule_changes-IsReadOnly : (id : Bytes) → IsReadOnly (rule_changes id)
unfolding rule_changes change_log
rule_changes-IsReadOnly id = query-IsReadOnly _

audit_entries-IsReadOnly : (limit : ℤ) → IsReadOnly (audit_entries limit)
unfolding audit_entries list_audit
audit_entries-IsReadOnly limit = query-IsReadOnly _

list_deliveries-IsReadOnly : (id : Bytes) → IsReadOnly (list_deliveries id)
unfolding list_deliveries list_deliveries_by_event
list_deliveries-IsReadOnly id =
    bind-IsReadOnly _ _ (find_event-IsReadOnly id) (λ _. query-IsReadOnly _)

stats-IsReadOnly : IsReadOnly stats
unfolding stats device_count event_count pending_count
stats-IsReadOnly = bind-IsReadOnly _ _ (query-IsReadOnly _) (λ _.
    bind-IsReadOnly _ _ (query-IsReadOnly _)
      (λ _. bind-IsReadOnly _ _ (query-IsReadOnly _) (λ _. pure-IsReadOnly _)))

or_refused-IsReadOnly {ℓ} : {A : Type ℓ} (r : Result A) → IsReadOnly (or_refused r)
or_refused-IsReadOnly (ok a) = pure-IsReadOnly a
or_refused-IsReadOnly {A = A} (err e) = throw-IsReadOnly A e

events_page-IsReadOnly : (ext : External) (f : EventFilter) → IsReadOnly (events_page ext f)
unfolding events_page query_events
events_page-IsReadOnly ext f =
    bind-IsReadOnly _ _
      (bind-IsReadOnly _ _ (query-IsReadOnly _) (λ _.
        bind-IsReadOnly _ _ (query-IsReadOnly _)
          (λ rows. bind-IsReadOnly _ _ (or_refused-IsReadOnly rows) (λ _. pure-IsReadOnly _))))
      (λ _. pure-IsReadOnly _)

module _ (ext : External) (text_of : ParseError → Bytes) (window : ℤ) (codec : Codec)
    (static : Static) (mux : Mux) (metrics : Bytes) (env : Env) where
  index-IsUntouched : (r : Request) → IsUntouched (handle_index static r)
  unfolding handle_index IsUntouched eqb
  index-IsUntouched r w = ground arith

  -- The handler of a pattern for GET leaves the tables as they were.
  pub read-IsUntouched :
      (route : Route) (op : Option Bytes) (r : Request)
      → eqb (pattern_of route).0 (codes "GET") ≡ true
      → IsUntouched (handle ext text_of window codec static mux metrics env route op r)
  unfolding handle pattern_of eqb handle_list_devices handle_get_device handle_list_rules
      handle_get_rule handle_rule_changes handle_list_events handle_get_event handle_stats
      handle_list_deliveries handle_list_audit handle_assets handle_index
  read-IsUntouched healthz op r e = answer-IsUntouched _
  read-IsUntouched metrics_route op r e = answer-IsUntouched _
  read-IsUntouched create_device_route op r e = cc
  read-IsUntouched telemetry_route op r e = cc
  read-IsUntouched create_rule_route op r e = cc
  read-IsUntouched (device_status_route id) op r e = cc
  read-IsUntouched (update_rule_route id) op r e = cc
  read-IsUntouched (delete_rule_route id) op r e = cc
  read-IsUntouched (replay_route id) op r e = cc
  read-IsUntouched list_devices_route op r e = respond-IsUntouched _ _ list_devices-IsReadOnly
  read-IsUntouched list_rules_route op r e = respond-IsUntouched _ _ live_rules-IsReadOnly
  read-IsUntouched list_events_route op r e = respond-IsUntouched _ _ (events_page-IsReadOnly _ _)
  read-IsUntouched stats_route op r e = respond-IsUntouched _ _ stats-IsReadOnly
  read-IsUntouched audit_route op r e = respond-IsUntouched _ _ (audit_entries-IsReadOnly _)
  read-IsUntouched (get_device_route id) op r e =
      respond-IsUntouched _ _ (find_device-IsReadOnly id)
  read-IsUntouched (get_rule_route id) op r e = respond-IsUntouched _ _ (find_rule-IsReadOnly id)
  read-IsUntouched (rule_changes_route id) op r e =
      respond-IsUntouched _ _ (rule_changes-IsReadOnly id)
  read-IsUntouched (get_event_route id) op r e = respond-IsUntouched _ _ (find_event-IsReadOnly id)
  read-IsUntouched (list_deliveries_route id) op r e =
      respond-IsUntouched _ _ (list_deliveries-IsReadOnly id)
  read-IsUntouched assets_route op r e = answer-IsUntouched _
  read-IsUntouched index_route op r e = index-IsUntouched r

  module _ (lawful : IsMux mux) where
    routed-tables :
        (o : Option Route) (op : Option Bytes) (r : Request) (w : World)
        → mux.resolve r ≡ o
        → requires_auth r ≡ false
        → (routed ext text_of window codec static mux metrics env o op r w).1.tables ≡ w.tables
    unfolding IsMux IsUntouched
    routed-tables none op r w e h = refl
    routed-tables (some route) op r w e h =
        let (m, p) = lawful r route e in read-IsUntouched route op r (served-get route r m p h) w

    pub serve_mux-tables :
        (op : Option Bytes) (r : Request) (w : World)
        → requires_auth r ≡ false
        → (serve_mux ext text_of window codec static mux metrics env op r w).1.tables ≡ w.tables
    unfolding serve_mux
    serve_mux-tables op r w h = routed-tables (mux.resolve r) op r w refl h

    guarded-tables :
        (keys : KeyMap) (b : Bool) (r : Request) (w : World)
        → requires_auth r ≡ b
        → b ≡ false
        → (guarded ext text_of window codec static mux metrics env keys b r w).1.tables ≡ w.tables
    guarded-tables keys true r w e f = cc
    guarded-tables keys false r w e f = serve_mux-tables none r w e

    -- Under the rules of net/http for patterns, a request whose method is none of POST, PUT and DELETE
    -- leaves every table as it was, with or without an authenticator.
    pub serve-reads :
        (keys : Option KeyMap) (r : Request) (w : World)
        → reads r.method ≡ true
        → (serve ext text_of window codec static mux metrics env keys r w).1.tables ≡ w.tables
    unfolding serve
    serve-reads none r w h = serve_mux-tables none r w (reads-requires_auth r h)
    serve-reads (some keys) r w h =
        guarded-tables keys (requires_auth r) r w refl (reads-requires_auth r h)
