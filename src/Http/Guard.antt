-- ===== src/Http/Guard.antt =====
-- internal/httpapi/server.go with internal/auth: requests whose key is not accepted.
use device_telemetry_ro.Prelude.Int.{ℤ}
use device_telemetry_ro.Prelude.Bytes.{Bytes, codes}
use device_telemetry_ro.Domain.Errors.{Result, ok, err}
use device_telemetry_ro.External.{External}
use device_telemetry_ro.Parser.{ParseError}
use device_telemetry_ro.Db.{Tables, World}
use device_telemetry_ro.Auth.{KeyMap}
use device_telemetry_ro.Auth.Decision.{accepted_operator, unaudited, authenticate-decision}
use device_telemetry_ro.Http.{Request, unauthorized}
use device_telemetry_ro.Http.Handlers.{Env, Codec}
use device_telemetry_ro.Http.Server.{
  Mux, requires_auth, Static, after_auth, middleware, guarded, serve,
}
use device_telemetry_ro.Http.Routing.{IsMux, writes-requires_auth}
use device_telemetry_ro.Http.Reads.{serve_mux-tables}
use device_telemetry_ro.Prelude.{
  ◌≡◌, refl, ap, ◌∙◌, ◌⊎◌, Bool, true, false, Option, none, some, ◌++◌,
}

module _ (ext : External) (text_of : ParseError → Bytes) (window : ℤ) (codec : Codec)
    (static : Static) (mux : Mux) (metrics : Bytes) (env : Env) (lawful : IsMux mux)
    (keys : KeyMap) where
  after_auth-tables :
      (r : Request) (u : Tables) (res : Result (Option Bytes) × World)
      → res.0 ≡ ok none
      → unaudited res.1.tables ≡ u
      → unaudited (after_auth ext text_of window codec static mux metrics env r res).1.tables ≡ u
  after_auth-tables r u (ok none, w) e h = h
  after_auth-tables r u (ok (some op), w) e h = cc
  after_auth-tables r u (err x, w) e h = h

  guarded-rejected :
      (b : Bool) (r : Request) (w : World)
      → requires_auth r ≡ b
      → accepted_operator keys (ext.sha256_hex r.api_key) ≡ none
      → unaudited (guarded ext text_of window codec static mux metrics env keys b r w).1.tables
        ≡ unaudited w.tables
  unfolding middleware
  guarded-rejected false r w e h =
      ap unaudited
        (serve_mux-tables ext text_of window codec static mux metrics env lawful none r w e)
  guarded-rejected true r w e h =
      let (res, t) = authenticate-decision ext keys env.auth_now r.api_key r.remote r.path w in
      after_auth-tables r _ _ (res ∙ ap ok h) t

  -- Under the rules of net/http for patterns, a request whose key is unknown or disabled changes no
  -- table but the log of attempts: whatever its method, its path and its body.
  pub serve-rejected :
      (r : Request) (w : World)
      → accepted_operator keys (ext.sha256_hex r.api_key) ≡ none
      → unaudited (serve ext text_of window codec static mux metrics env (some keys) r w).1.tables
        ≡ unaudited w.tables
  unfolding serve
  serve-rejected r w h = guarded-rejected (requires_auth r) r w refl h

  after_auth-status :
      (r : Request) (res : Result (Option Bytes) × World)
      → res.0 ≡ ok none
      → (after_auth ext text_of window codec static mux metrics env r res).0 ≡ unauthorized
  after_auth-status r (ok none, w) e = refl
  after_auth-status r (ok (some op), w) e = cc
  after_auth-status r (err x, w) e = refl

  guarded-unauthorized :
      (b : Bool) (r : Request) (w : World)
      → b ≡ true
      → accepted_operator keys (ext.sha256_hex r.api_key) ≡ none
      → (guarded ext text_of window codec static mux metrics env keys b r w).0 ≡ unauthorized
  unfolding middleware
  guarded-unauthorized false r w e h = cc
  guarded-unauthorized true r w e h =
      after_auth-status r _
        ((authenticate-decision ext keys env.auth_now r.api_key r.remote r.path w).0 ∙ ap ok h)

  -- A POST, PUT or DELETE request for a path that begins with "/api/v1/" and whose key is unknown or disabled is answered with
  -- 401, whatever the handler of its route would do and whichever statement the database fails.
  pub serve-unauthorized :
      (r : Request) (rest : Bytes) (w : World)
      → (r.method ≡ codes "POST") ⊎ ((r.method ≡ codes "PUT") ⊎ (r.method ≡ codes "DELETE"))
      → r.path ≡ codes "/api/v1/" ++ rest
      → accepted_operator keys (ext.sha256_hex r.api_key) ≡ none
      → (serve ext text_of window codec static mux metrics env (some keys) r w).0 ≡ unauthorized
  unfolding serve
  serve-unauthorized r rest w m p h =
      guarded-unauthorized (requires_auth r) r w (writes-requires_auth r rest m p) h
