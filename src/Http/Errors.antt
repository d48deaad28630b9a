-- ===== src/Http/Errors.antt =====
-- internal/httpapi: the tables after a request that is answered with an error.
use device_telemetry_ro.Prelude.{
  leb, if◌then◌else◌, ◌≡◌, refl, ap, ◌∙◌, Bool, true, false, Option, none, some, [],
}
use device_telemetry_ro.Prelude.Int.{ℤ}
use device_telemetry_ro.Prelude.Bytes.{Bytes, eqb}
use device_telemetry_ro.Domain.Errors.{Result, ok, err}
use device_telemetry_ro.External.{External}
use device_telemetry_ro.Parser.{ParseError}
use device_telemetry_ro.Db.{Tables, World}
use device_telemetry_ro.Service.Safe.{
  ingest_telemetry-IsAtomic, change_rule-IsAtomic, delete_rule-IsAtomic, add_rule-IsAtomic,
}
use device_telemetry_ro.Service.Registry.{register_device-IsAtomic, set_device_status-IsAtomic}
use device_telemetry_ro.Auth.{KeyMap}
use device_telemetry_ro.Auth.Decision.{unaudited, authenticate-decision}
use device_telemetry_ro.Http.{Request}
use device_telemetry_ro.Http.Handlers.{
  Env, Codec, register, handle_create_device, handle_device_status, ingest_body, handle_telemetry,
  handle_create_rule, handle_update_rule, handle_delete_rule,
}
use device_telemetry_ro.Http.Server.{
  Route, healthz, metrics_route, create_device_route, list_devices_route, telemetry_route,
  create_rule_route, list_rules_route, list_events_route, stats_route, audit_route, assets_route,
  index_route, get_device_route, device_status_route, get_rule_route, update_rule_route,
  delete_rule_route, rule_changes_route, get_event_route, list_deliveries_route, replay_route,
  pattern_of, Mux, requires_auth, Static, handle, routed, serve_mux, after_auth, middleware,
  guarded, serve,
}
use device_telemetry_ro.Http.Rolled.{
  IsRolled, IsUntouched-IsRolled, respond-IsRolled, with_body-IsRolled, answer-IsRolled,
  if-IsRolled,
}
use device_telemetry_ro.Http.Reads.{read-IsUntouched}

abbrev pub is_replay : Route → Bool
is_replay (replay_route id) = true
is_replay _ = false

abbrev pub replays : Option Route → Bool
replays none = false
replays (some route) = is_replay route

module _ (ext : External) (text_of : ParseError → Bytes) (window : ℤ) (codec : Codec)
    (env : Env) where
  create_device-IsRolled :
      (r : Request) → IsRolled (handle_create_device ext text_of window codec env r)
  unfolding handle_create_device register
  create_device-IsRolled r =
      with_body-IsRolled (codec.decode_device r.body) _
        (λ req. respond-IsRolled _ _ (register_device-IsAtomic ext env.now _ _ _ _) (λ d. refl))

  device_status-IsRolled :
      (id : Bytes) (r : Request) → IsRolled (handle_device_status ext text_of window codec env id r)
  unfolding handle_device_status
  device_status-IsRolled id r =
      with_body-IsRolled (codec.decode_status r.body) _
        (λ status. respond-IsRolled _ _ (set_device_status-IsAtomic env.store_now id _) (λ d. refl))

  answer-below : (b : Bool) → leb 400 (if b then 200 else 201) ≡ false
  answer-below true = refl
  answer-below false = refl

  ingest_body-IsRolled :
      (raw_text : Bytes) → IsRolled (ingest_body ext text_of window codec env raw_text)
  ingest_body-IsRolled raw_text = if-IsRolled (eqb raw_text []) _ _ (answer-IsRolled _) (
      respond-IsRolled _ _
        (ingest_telemetry-IsAtomic ext text_of window env.now env.fresh_id raw_text)
        (λ res. answer-below res.duplicate))

  telemetry-IsRolled : (r : Request) → IsRolled (handle_telemetry ext text_of window codec env r)
  unfolding handle_telemetry
  telemetry-IsRolled r = with_body-IsRolled (codec.decode_telemetry r.body) _ ingest_body-IsRolled

  create_rule-IsRolled :
      (op : Option Bytes) (r : Request)
      → IsRolled (handle_create_rule ext text_of window codec env op r)
  unfolding handle_create_rule
  create_rule-IsRolled op r = with_body-IsRolled (codec.decode_rule r.body) _ (λ input.
      respond-IsRolled _ _ (add_rule-IsAtomic ext env.now env.fresh_id op input) (λ d. refl))

  update_rule-IsRolled :
      (op : Option Bytes) (id : Bytes) (r : Request)
      → IsRolled (handle_update_rule ext text_of window codec env op id r)
  unfolding handle_update_rule
  update_rule-IsRolled op id r =
      with_body-IsRolled (codec.decode_rule r.body) _
        (λ input. respond-IsRolled _ _ (change_rule-IsAtomic ext env.now op id input) (λ d. refl))

  delete_rule-IsRolled :
      (op : Option Bytes) (id : Bytes)
      → IsRolled (handle_delete_rule ext text_of window codec env op id)
  unfolding handle_delete_rule
  delete_rule-IsRolled op id =
      respond-IsRolled _ _ (delete_rule-IsAtomic ext env.now op id) (λ d. refl)

  module _ (static : Static) (mux : Mux) (metrics : Bytes) where
    -- Each handler but that of replay leaves the tables as they were when it answers with an error.
    handle-IsRolled :
        (route : Route) (op : Option Bytes) (r : Request)
        → is_replay route ≡ false
        → IsRolled (handle ext text_of window codec static mux metrics env route op r)
    unfolding handle pattern_of eqb
    handle-IsRolled healthz op r e =
        IsUntouched-IsRolled _
          (read-IsUntouched ext text_of window codec static mux metrics env healthz op r refl)
    handle-IsRolled metrics_route op r e =
        IsUntouched-IsRolled _
          (read-IsUntouched ext text_of window codec static mux metrics env metrics_route op r refl)
    handle-IsRolled create_device_route op r e = create_device-IsRolled r
    handle-IsRolled list_devices_route op r e = IsUntouched-IsRolled _ (
        read-IsUntouched ext text_of window codec static mux metrics env list_devices_route op r
          refl)
    handle-IsRolled (get_device_route id) op r e = IsUntouched-IsRolled _ (
        read-IsUntouched ext text_of window codec static mux metrics env (get_device_route id) op r
          refl)
    handle-IsRolled (device_status_route id) op r e = device_status-IsRolled id r
    handle-IsRolled telemetry_route op r e = telemetry-IsRolled r
    handle-IsRolled create_rule_route op r e = create_rule-IsRolled op r
    handle-IsRolled list_rules_route op r e = IsUntouched-IsRolled _ (
        read-IsUntouched ext text_of window codec static mux metrics env list_rules_route op r refl)
    handle-IsRolled (get_rule_route id) op r e = IsUntouched-IsRolled _ (
        read-IsUntouched ext text_of window codec static mux metrics env (get_rule_route id) op r
          refl)
    handle-IsRolled (update_rule_route id) op r e = update_rule-IsRolled op id r
    handle-IsRolled (delete_rule_route id) op r e = delete_rule-IsRolled op id
    handle-IsRolled (rule_changes_route id) op r e = IsUntouched-IsRolled _ (
        read-IsUntouched ext text_of window codec static mux metrics env (rule_changes_route id) op
          r refl)
    handle-IsRolled list_events_route op r e = IsUntouched-IsRolled _ (
        read-IsUntouched ext text_of window codec static mux metrics env list_events_route op r
          refl)
    handle-IsRolled (get_event_route id) op r e = IsUntouched-IsRolled _ (
        read-IsUntouched ext text_of window codec static mux metrics env (get_event_route id) op r
          refl)
    handle-IsRolled (list_deliveries_route id) op r e = IsUntouched-IsRolled _ (
        read-IsUntouched ext text_of window codec static mux metrics env (list_deliveries_route id)
          op r refl)
    handle-IsRolled (replay_route id) op r e = cc
    handle-IsRolled stats_route op r e =
        IsUntouched-IsRolled _
          (read-IsUntouched ext text_of window codec static mux metrics env stats_route op r refl)
    handle-IsRolled audit_route op r e =
        IsUntouched-IsRolled _
          (read-IsUntouched ext text_of window codec static mux metrics env audit_route op r refl)
    handle-IsRolled assets_route op r e =
        IsUntouched-IsRolled _
          (read-IsUntouched ext text_of window codec static mux metrics env assets_route op r refl)
    handle-IsRolled index_route op r e =
        IsUntouched-IsRolled _
          (read-IsUntouched ext text_of window codec static mux metrics env index_route op r refl)

    routed-IsRolled :
        (o : Option Route) (op : Option Bytes) (r : Request)
        → replays o ≡ false
        → IsRolled (routed ext text_of window codec static mux metrics env o op r)
    routed-IsRolled none op r e = answer-IsRolled _
    routed-IsRolled (some route) op r e = handle-IsRolled route op r e

    after_auth-rolled :
        (r : Request) (u : Tables) (res : Result (Option Bytes) × World)
        → replays (mux.resolve r) ≡ false
        → unaudited res.1.tables ≡ u
        → leb 400 (after_auth ext text_of window codec static mux metrics env r res).0.status ≡ true
        → unaudited (after_auth ext text_of window codec static mux metrics env r res).1.tables ≡ u
    unfolding serve_mux IsRolled
    after_auth-rolled r u (ok none, w) e t h = t
    after_auth-rolled r u (ok (some op), w) e t h =
        ap unaudited (routed-IsRolled (mux.resolve r) (some op) r e w h) ∙ t
    after_auth-rolled r u (err x, w) e t h = t

    guarded-rolled :
        (keys : KeyMap) (b : Bool) (r : Request) (w : World)
        → replays (mux.resolve r) ≡ false
        → leb 400 (guarded ext text_of window codec static mux metrics env keys b r w).0.status
          ≡ true
        → unaudited (guarded ext text_of window codec static mux metrics env keys b r w).1.tables
          ≡ unaudited w.tables
    unfolding serve_mux IsRolled middleware
    guarded-rolled keys true r w e h =
        after_auth-rolled r _ _ e
          (authenticate-decision ext keys env.auth_now r.api_key r.remote r.path w).1 h
    guarded-rolled keys false r w e h = ap unaudited (routed-IsRolled (mux.resolve r) none r e w h)

    -- A request that is not routed to the replay of an event, and that is answered with a status of 400
    -- or more, leaves every table but the log of attempts as it was: whatever the request, the keys and
    -- the mux, and whichever statements the database fails.
    pub serve-rolled :
        (keys : Option KeyMap) (r : Request) (w : World)
        → replays (mux.resolve r) ≡ false
        → leb 400 (serve ext text_of window codec static mux metrics env keys r w).0.status ≡ true
        → unaudited (serve ext text_of window codec static mux metrics env keys r w).1.tables
          ≡ unaudited w.tables
    unfolding serve serve_mux IsRolled
    serve-rolled none r w e h = ap unaudited (routed-IsRolled (mux.resolve r) none r e w h)
    serve-rolled (some keys) r w e h = guarded-rolled keys (requires_auth r) r w e h
