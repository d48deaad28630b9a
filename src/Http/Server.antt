-- ===== src/Http/Server.antt =====
-- internal/httpapi/server.go and static.go: the routes, the authentication of requests that change
-- something, and the static files. Matching a request against the patterns is net/http's, and a
-- parameter; logging, and the recovery from panics, which no modelled handler raises, are left out.
use device_telemetry_ro.Prelude.{
  leb, if◌then◌else◌, length, take, drop, any, ℕ, Bool, true, false, not, ◌&&◌, ◌||◌, Option, none,
  some, [], ◌∷◌,
}
use device_telemetry_ro.Prelude.Int.{ℤ}
use device_telemetry_ro.Prelude.Bytes.{Bytes, codes, eqb}
use device_telemetry_ro.Domain.Errors.{Result, ok, err}
use device_telemetry_ro.External.{External}
use device_telemetry_ro.Parser.{ParseError}
use device_telemetry_ro.Db.{World}
use device_telemetry_ro.Auth.{KeyMap, authenticate}
use device_telemetry_ro.Http.{
  Request, alive, metrics_body, file_body, not_found_body, mux_body, Response, write_json,
  unauthorized,
}
use device_telemetry_ro.Http.Handlers.{
  Env, Codec, handle_create_device, handle_list_devices, handle_get_device, handle_device_status,
  handle_telemetry, handle_create_rule, handle_list_rules, handle_get_rule, handle_update_rule,
  handle_delete_rule, handle_rule_changes, handle_list_events, handle_get_event, handle_stats,
  handle_list_deliveries, handle_replay_event, handle_list_audit,
}

-- the registered handlers, with the values of their wildcards
pub data Route : Type 0 where
  healthz metrics_route create_device_route list_devices_route telemetry_route : Route
  create_rule_route list_rules_route list_events_route stats_route audit_route : Route
  assets_route index_route : Route
  get_device_route device_status_route get_rule_route update_rule_route : Bytes → Route
  delete_rule_route rule_changes_route get_event_route list_deliveries_route : Bytes → Route
  replay_route : Bytes → Route

-- the method and the path of each pattern of `NewServerWith`
unfoldable pub pattern_of : Route → Bytes × Bytes
pattern_of healthz = (codes "GET", codes "/healthz")
pattern_of metrics_route = (codes "GET", codes "/metrics")
pattern_of create_device_route = (codes "POST", codes "/api/v1/devices")
pattern_of list_devices_route = (codes "GET", codes "/api/v1/devices")
pattern_of (get_device_route id) = (codes "GET", codes "/api/v1/devices/{device_id}")
pattern_of (device_status_route id) = (codes "POST", codes "/api/v1/devices/{device_id}/status")
pattern_of telemetry_route = (codes "POST", codes "/api/v1/telemetry")
pattern_of create_rule_route = (codes "POST", codes "/api/v1/rules")
pattern_of list_rules_route = (codes "GET", codes "/api/v1/rules")
pattern_of (get_rule_route id) = (codes "GET", codes "/api/v1/rules/{rule_id}")
pattern_of (update_rule_route id) = (codes "PUT", codes "/api/v1/rules/{rule_id}")
pattern_of (delete_rule_route id) = (codes "DELETE", codes "/api/v1/rules/{rule_id}")
pattern_of (rule_changes_route id) = (codes "GET", codes "/api/v1/rules/{rule_id}/changes")
pattern_of list_events_route = (codes "GET", codes "/api/v1/events")
pattern_of (get_event_route id) = (codes "GET", codes "/api/v1/events/{event_id}")
pattern_of (list_deliveries_route id) = (codes "GET", codes "/api/v1/events/{event_id}/deliveries")
pattern_of (replay_route id) = (codes "POST", codes "/api/v1/events/{event_id}/replay")
pattern_of stats_route = (codes "GET", codes "/api/v1/stats")
pattern_of audit_route = (codes "GET", codes "/api/v1/audit")
pattern_of assets_route = (codes "GET", codes "/assets/")
pattern_of index_route = (codes "GET", codes "/")

-- http.ServeMux: the handler of a request, and else the status of the mux's own answer
pub record Mux : Type 0 where
  pub resolve : Request → Option Route
  pub own_status : Request → ℕ

-- `requiresAuth`
unfoldable pub requires_auth : Request → Bool
requires_auth r =
    (eqb r.method (codes "POST") || eqb r.method (codes "PUT") || eqb r.method (codes "DELETE"))
    && (leb 8 (length r.path) && eqb (take 8 r.path) (codes "/api/v1/"))

-- the static files: their directory, and the path of filepath.Join(staticDir(), filepath.Clean(name))
pub record Static : Type 0 where
  pub index_file : Bytes
  pub asset_file : Bytes → Bytes
  -- the status with which http.ServeFile serves a file
  pub serve_status : Bytes → ℕ

module _ (static : Static) where
  abbrev serve_file : Bytes → Response
  serve_file name = write_json (static.serve_status name) (file_body name)

  -- `handleAssets`
  unfoldable pub handle_assets : Request → World → Response × World
  handle_assets r w = (serve_file (static.asset_file (drop (length (codes "/assets/")) r.path)), w)

  -- `handleIndex`
  unfoldable pub handle_index : Request → World → Response × World
  handle_index r w =
      if not (
        any (λ p. eqb r.path p)
          (codes "/"
            ∷ codes "/devices"
            ∷ codes "/telemetry"
            ∷ codes "/rules"
            ∷ codes "/events"
            ∷ []))
      then (write_json 404 not_found_body, w)
      else (serve_file static.index_file, w)

module _ (ext : External) (text_of : ParseError → Bytes) (window : ℤ) (codec : Codec)
    (static : Static) (mux : Mux) (metrics : Bytes) (env : Env) where
  -- the handler of each route, with the operator of the request
  unfoldable pub handle : Route → Option Bytes → Request → World → Response × World
  handle healthz op r = λ w. (write_json 200 alive, w)
  handle metrics_route op r = λ w. (write_json 200 (metrics_body metrics), w)
  handle create_device_route op r = handle_create_device ext text_of window codec env r
  handle list_devices_route op r = handle_list_devices ext text_of window codec env
  handle (get_device_route id) op r = handle_get_device ext text_of window codec env id
  handle (device_status_route id) op r = handle_device_status ext text_of window codec env id r
  handle telemetry_route op r = handle_telemetry ext text_of window codec env r
  handle create_rule_route op r = handle_create_rule ext text_of window codec env op r
  handle list_rules_route op r = handle_list_rules ext text_of window codec env
  handle (get_rule_route id) op r = handle_get_rule ext text_of window codec env id
  handle (update_rule_route id) op r = handle_update_rule ext text_of window codec env op id r
  handle (delete_rule_route id) op r = handle_delete_rule ext text_of window codec env op id
  handle (rule_changes_route id) op r = handle_rule_changes ext text_of window codec env id
  handle list_events_route op r = handle_list_events ext text_of window codec env r
  handle (get_event_route id) op r = handle_get_event ext text_of window codec env id
  handle (list_deliveries_route id) op r = handle_list_deliveries ext text_of window codec env id
  handle (replay_route id) op r = handle_replay_event ext text_of window codec env id
  handle stats_route op r = handle_stats ext text_of window codec env
  handle audit_route op r = handle_list_audit ext text_of window codec env r
  handle assets_route op r = handle_assets static r
  handle index_route op r = handle_index static r

  abbrev pub routed : Option Route → Option Bytes → Request → World → Response × World
  routed none op r w = (write_json (mux.own_status r) mux_body, w)
  routed (some route) op r w = handle route op r w

  -- the mux of `NewServerWith`
  unfoldable pub serve_mux : Option Bytes → Request → World → Response × World
  serve_mux op r = routed (mux.resolve r) op r

  abbrev pub after_auth : Request → Result (Option Bytes) × World → Response × World
  after_auth r (ok none, w) = (unauthorized, w)
  after_auth r (ok (some op), w) = serve_mux (some op) r w
  after_auth r (err e, w) = (unauthorized, w)

  -- `Middleware`
  unfoldable pub middleware : KeyMap → Request → World → Response × World
  middleware keys r w =
      after_auth r (authenticate ext keys env.auth_now r.api_key r.remote r.path w)

  abbrev pub guarded : KeyMap → Bool → Request → World → Response × World
  guarded keys true r = middleware keys r
  guarded keys false r = serve_mux none r

  -- `wrapAuth`, when an authenticator is wired
  unfoldable pub serve : Option KeyMap → Request → World → Response × World
  serve none r = serve_mux none r
  serve (some keys) r = guarded keys (requires_auth r) r
