-- ===== src/Http/Lifecycle.antt =====
-- internal/httpapi: the rows of the deliveries stay in order under each request.
use device_telemetry_ro.Prelude.{
  if◌then◌else◌, ◌≡◌, refl, sym, subst, Bool, true, false, Option, none, some, [],
}
use device_telemetry_ro.Prelude.Int.{ℤ}
use device_telemetry_ro.Prelude.Bytes.{Bytes, codes, eqb}
use device_telemetry_ro.Domain.Errors.{Result, ok, err}
use device_telemetry_ro.External.{External}
use device_telemetry_ro.Parser.{ParseError}
use device_telemetry_ro.Db.{World, Exec}
use device_telemetry_ro.Db.Keeps.{Keeps}
use device_telemetry_ro.Store.Lifecycle.{InOrder}
use device_telemetry_ro.Auth.{KeyMap}
use device_telemetry_ro.Service.Lifecycle.{
  authenticate-Keeps, register_device-Keeps, set_device_status-Keeps, ingest_telemetry-Keeps,
  add_rule-Keeps, change_rule-Keeps, delete_rule-Keeps, replay_event-Keeps,
}
use device_telemetry_ro.Http.{Request, Response, render, respond}
use device_telemetry_ro.Http.Handlers.{
  Env, Decoded, decoded, undecodable, Codec, with_body, register, handle_create_device,
  handle_device_status, handle_telemetry, handle_create_rule, handle_update_rule,
  handle_delete_rule, handle_replay_event,
}
use device_telemetry_ro.Http.Server.{
  Route, healthz, metrics_route, create_device_route, list_devices_route, telemetry_route,
  create_rule_route, list_rules_route, list_events_route, stats_route, audit_route, assets_route,
  index_route, get_device_route, device_status_route, get_rule_route, update_rule_route,
  delete_rule_route, rule_changes_route, get_event_route, list_deliveries_route, replay_route,
  pattern_of, Mux, requires_auth, Static, handle, routed, serve_mux, after_auth, middleware,
  guarded, serve,
}
use device_telemetry_ro.Http.Rolled.{IsUntouched, answer-IsUntouched}
use device_telemetry_ro.Http.Reads.{read-IsUntouched}

unfoldable pub KeepsOrder : (World → Response × World) → Type 0
KeepsOrder h = (w : World) → InOrder w.tables → InOrder (h w).1.tables

render-order {ℓ} :
    {A : Type ℓ} (f : A → Response) (r : Result A × World)
    → InOrder r.1.tables
    → InOrder (render f r).1.tables
render-order f (ok a, w) i = i
render-order f (err e, w) i = i

respond-KeepsOrder {ℓ} :
    {A : Type ℓ} (m : Exec A) (f : A → Response) → Keeps InOrder m → KeepsOrder (respond m f)
unfolding KeepsOrder Keeps respond
respond-KeepsOrder m f k w i = render-order f (m w) (k w i)

with_body-KeepsOrder {ℓ} :
    {A : Type ℓ} (d : Decoded A) (f : A → World → Response × World)
    → ((a : A) → KeepsOrder (f a))
    → KeepsOrder (with_body d f)
unfolding KeepsOrder
with_body-KeepsOrder (decoded a) f h w i = h a w i
with_body-KeepsOrder (undecodable text) f h w i = i

IsUntouched-KeepsOrder : (h : World → Response × World) → IsUntouched h → KeepsOrder h
unfolding KeepsOrder IsUntouched
IsUntouched-KeepsOrder h u w i = subst InOrder (sym (u w)) i

if-KeepsOrder :
    (b : Bool) (h k : World → Response × World)
    → KeepsOrder h
    → KeepsOrder k
    → KeepsOrder (if b then h else k)
if-KeepsOrder true h k p q = p
if-KeepsOrder false h k p q = q

module _ (ext : External) (text_of : ParseError → Bytes) (window : ℤ) (codec : Codec)
    (env : Env) where
  create_device-order :
      (r : Request) → KeepsOrder (handle_create_device ext text_of window codec env r)
  unfolding handle_create_device register
  create_device-order r =
      with_body-KeepsOrder (codec.decode_device r.body) _
        (λ req. respond-KeepsOrder _ _ (register_device-Keeps ext env.now _ _ _ _))

  device_status-order :
      (id : Bytes) (r : Request)
      → KeepsOrder (handle_device_status ext text_of window codec env id r)
  unfolding handle_device_status
  device_status-order id r =
      with_body-KeepsOrder (codec.decode_status r.body) _
        (λ status. respond-KeepsOrder _ _ (set_device_status-Keeps ext env.store_now id _))

  telemetry-order : (r : Request) → KeepsOrder (handle_telemetry ext text_of window codec env r)
  unfolding handle_telemetry
  telemetry-order r = with_body-KeepsOrder (codec.decode_telemetry r.body) _ (λ raw_text.
      if-KeepsOrder (eqb raw_text []) _ _ (IsUntouched-KeepsOrder _ (answer-IsUntouched _)) (
        respond-KeepsOrder _ _
          (ingest_telemetry-Keeps ext text_of window env.now env.fresh_id raw_text)))

  create_rule-order :
      (op : Option Bytes) (r : Request)
      → KeepsOrder (handle_create_rule ext text_of window codec env op r)
  unfolding handle_create_rule
  create_rule-order op r =
      with_body-KeepsOrder (codec.decode_rule r.body) _
        (λ input. respond-KeepsOrder _ _ (add_rule-Keeps ext env.now env.fresh_id op input))

  update_rule-order :
      (op : Option Bytes) (id : Bytes) (r : Request)
      → KeepsOrder (handle_update_rule ext text_of window codec env op id r)
  unfolding handle_update_rule
  update_rule-order op id r =
      with_body-KeepsOrder (codec.decode_rule r.body) _
        (λ input. respond-KeepsOrder _ _ (change_rule-Keeps ext env.now op id input))

  delete_rule-order :
      (op : Option Bytes) (id : Bytes)
      → KeepsOrder (handle_delete_rule ext text_of window codec env op id)
  unfolding handle_delete_rule
  delete_rule-order op id = respond-KeepsOrder _ _ (delete_rule-Keeps ext env.now op id)

  replay-order : (id : Bytes) → KeepsOrder (handle_replay_event ext text_of window codec env id)
  unfolding handle_replay_event
  replay-order id = respond-KeepsOrder _ _ (replay_event-Keeps ext env.now id)

  module _ (static : Static) (mux : Mux) (metrics : Bytes) where
    read-KeepsOrder :
        (route : Route) (op : Option Bytes) (r : Request)
        → eqb (pattern_of route).0 (codes "GET") ≡ true
        → KeepsOrder (handle ext text_of window codec static mux metrics env route op r)
    read-KeepsOrder route op r e =
        IsUntouched-KeepsOrder _
          (read-IsUntouched ext text_of window codec static mux metrics env route op r e)

    handle-KeepsOrder :
        (route : Route) (op : Option Bytes) (r : Request)
        → KeepsOrder (handle ext text_of window codec static mux metrics env route op r)
    unfolding handle pattern_of eqb
    handle-KeepsOrder healthz op r = read-KeepsOrder healthz op r refl
    handle-KeepsOrder metrics_route op r = read-KeepsOrder metrics_route op r refl
    handle-KeepsOrder create_device_route op r = create_device-order r
    handle-KeepsOrder list_devices_route op r = read-KeepsOrder list_devices_route op r refl
    handle-KeepsOrder (get_device_route id) op r = read-KeepsOrder (get_device_route id) op r refl
    handle-KeepsOrder (device_status_route id) op r = device_status-order id r
    handle-KeepsOrder telemetry_route op r = telemetry-order r
    handle-KeepsOrder create_rule_route op r = create_rule-order op r
    handle-KeepsOrder list_rules_route op r = read-KeepsOrder list_rules_route op r refl
    handle-KeepsOrder (get_rule_route id) op r = read-KeepsOrder (get_rule_route id) op r refl
    handle-KeepsOrder (update_rule_route id) op r = update_rule-order op id r
    handle-KeepsOrder (delete_rule_route id) op r = delete_rule-order op id
    handle-KeepsOrder (rule_changes_route id) op r =
        read-KeepsOrder (rule_changes_route id) op r refl
    handle-KeepsOrder list_events_route op r = read-KeepsOrder list_events_route op r refl
    handle-KeepsOrder (get_event_route id) op r = read-KeepsOrder (get_event_route id) op r refl
    handle-KeepsOrder (list_deliveries_route id) op r =
        read-KeepsOrder (list_deliveries_route id) op r refl
    handle-KeepsOrder (replay_route id) op r = replay-order id
    handle-KeepsOrder stats_route op r = read-KeepsOrder stats_route op r refl
    handle-KeepsOrder audit_route op r = read-KeepsOrder audit_route op r refl
    handle-KeepsOrder assets_route op r = read-KeepsOrder assets_route op r refl
    handle-KeepsOrder index_route op r = read-KeepsOrder index_route op r refl

    routed-KeepsOrder :
        (o : Option Route) (op : Option Bytes) (r : Request)
        → KeepsOrder (routed ext text_of window codec static mux metrics env o op r)
    routed-KeepsOrder none op r = IsUntouched-KeepsOrder _ (answer-IsUntouched _)
    routed-KeepsOrder (some route) op r = handle-KeepsOrder route op r

    after_auth-order :
        (r : Request) (res : Result (Option Bytes) × World)
        → InOrder res.1.tables
        → InOrder (after_auth ext text_of window codec static mux metrics env r res).1.tables
    unfolding serve_mux KeepsOrder
    after_auth-order r (ok none, w) i = i
    after_auth-order r (ok (some op), w) i = routed-KeepsOrder (mux.resolve r) (some op) r w i
    after_auth-order r (err e, w) i = i

    guarded-KeepsOrder :
        (keys : KeyMap) (b : Bool) (r : Request)
        → KeepsOrder (guarded ext text_of window codec static mux metrics env keys b r)
    unfolding serve_mux middleware KeepsOrder Keeps
    guarded-KeepsOrder keys true r w i =
        after_auth-order r _
          (authenticate-Keeps ext keys env.auth_now r.api_key r.remote r.path w i)
    guarded-KeepsOrder keys false r w i = routed-KeepsOrder (mux.resolve r) none r w i

    pub serve-KeepsOrder :
        (keys : Option KeyMap) (r : Request)
        → KeepsOrder (serve ext text_of window codec static mux metrics env keys r)
    unfolding serve serve_mux
    serve-KeepsOrder none r = routed-KeepsOrder (mux.resolve r) none r
    serve-KeepsOrder (some keys) r = guarded-KeepsOrder keys (requires_auth r) r
