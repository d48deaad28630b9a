-- ===== src/Start/Wired.antt =====
-- cmd/server/main.go: what the server that `run` starts does with requests, and with its worker.
use mathlib.Core.Option.{some-injective}
use device_telemetry_ro.Prelude.{
  if◌then◌else◌, ◌≡◌, refl, sym, ap, subst, ◌∙◌, Bool, true, false, Option, none, some, [], arith,
}
use device_telemetry_ro.Prelude.Int.{ℤ, pos, leb_ℤ, ltb_ℤ}
use device_telemetry_ro.Prelude.Bytes.{Bytes, eqb}
use device_telemetry_ro.Domain.{Float64}
use device_telemetry_ro.External.{External}
use device_telemetry_ro.Parser.{ParseError}
use device_telemetry_ro.Db.{World}
use device_telemetry_ro.Start.{
  root_answer, Process, App, Started, started, unless_failed, authenticator_of, with_authenticator,
  worker_of, app_of, run_loaded, run, instrumented,
}
use device_telemetry_ro.Worker.{Options, with_defaults}
use device_telemetry_ro.Config.{Environment, WorkerConfig, Config, loaded, config_of, load-loaded}
use device_telemetry_ro.Metrics.{Registry}
use device_telemetry_ro.Auth.{KeyMap, ParsedKeys, keys_ok, keys_error, parse_key_pairs, new_keys}
use device_telemetry_ro.Auth.Keys.{IsCollisionFree}
use device_telemetry_ro.Auth.Decision.{unaudited}
use device_telemetry_ro.Auth.Configured.{configured_operator, configured_accepted}
use device_telemetry_ro.Http.{Request}
use device_telemetry_ro.Http.Handlers.{Env, Codec}
use device_telemetry_ro.Http.Server.{Mux, Static}
use device_telemetry_ro.Http.Routing.{IsMux}
use device_telemetry_ro.Http.Guard.{serve-rejected}

unless_failed-started :
    (o : Option Bytes) (next : Started) (app : App)
    → unless_failed o next ≡ started app
    → next ≡ started app
unless_failed-started none next app h = h
unless_failed-started (some text) next app h = cc

-- A server that starts has gone through each step.
run_loaded-started :
    (ext : External) (p : Process) (c : Config) (app : App)
    → run_loaded ext p (loaded c) ≡ started app
    → with_authenticator ext c.api_keys (λ keys. started (app_of ext c keys)) ≡ started app
run_loaded-started ext p c app h = unless_failed-started (p.apply_migrations c.database_url) _ app (
    unless_failed-started (p.ping_db c.database_url) _ app
      (unless_failed-started (p.open_db c.database_url) _ app h))

run-started :
    (ext : External) (p : Process) (e : Environment) (app : App)
    → run ext p e ≡ started app
    → with_authenticator ext
        (config_of e).api_keys
        (λ keys. started (app_of ext (config_of e) keys))
      ≡ started app
unfolding run
run-started ext p e app h =
    run_loaded-started ext p (config_of e) app (ap (run_loaded ext p) (sym (load-loaded e)) ∙ h)

abbrev keys_of : Option KeyMap → Started → Option KeyMap
keys_of default (started app) = app.keys
keys_of default _ = default

with_keys :
    (ext : External) (c : Config) (m : KeyMap) (app : App)
    → eqb c.api_keys [] ≡ false
    → parse_key_pairs c.api_keys ≡ keys_ok m
    → with_authenticator ext c.api_keys (λ keys. started (app_of ext c keys)) ≡ started app
    → app.keys ≡ some (new_keys ext m [])
unfolding with_authenticator app_of
with_keys ext c m app n q h = sym (
    ap (keys_of none) (
      subst (λ r. authenticator_of ext r (λ keys. started (app_of ext c keys)) ≡ started app) q
        (subst
          (λ b.
            (if b
              then started (app_of ext c none)
              else authenticator_of ext (parse_key_pairs c.api_keys)
                  (λ keys. started (app_of ext c keys)))
            ≡ started app)
          n h)))

abbrev worker_in : Option Options → Started → Option Options
worker_in default (started app) = app.worker
worker_in default _ = default

positive_or :
    (n d : ℤ) → ltb_ℤ (pos 0) d ≡ true → ltb_ℤ (pos 0) (if leb_ℤ n (pos 0) then d else n) ≡ true
positive_or n d h = ground arith

-- The options of a worker are positive.
unfoldable pub IsPositive : Options → Type 0
IsPositive opts =
    (ltb_ℤ (pos 0) opts.interval ≡ true)
    × (ltb_ℤ (pos 0) opts.batch_size ≡ true)
    × (ltb_ℤ (pos 0) opts.max_attempt ≡ true)
    × (ltb_ℤ (pos 0) opts.base_delay ≡ true)

with_defaults-IsPositive : (opts : Options) → IsPositive (with_defaults opts)
unfolding with_defaults IsPositive
with_defaults-IsPositive opts = (
  positive_or opts.interval _ refl,
  positive_or opts.batch_size _ refl,
  positive_or opts.max_attempt _ refl,
  positive_or opts.base_delay _ refl,
)

worker_of-IsPositive :
    (c : WorkerConfig) (opts : Options) → worker_of c ≡ some opts → IsPositive opts
unfolding worker_of
worker_of-IsPositive c opts h = chosen c.enabled h
  where
    chosen :
        (b : Bool)
        → (if b
            then some (
                with_defaults (record {
                  interval = c.interval;
                  batch_size = c.batch_size;
                  max_attempt = c.max_attempt;
                  base_delay = c.base_delay;
                }))
            else none)
          ≡ some opts
        → IsPositive opts
    chosen true k = subst IsPositive (some-injective _ _ k) (with_defaults-IsPositive _)
    chosen false k = cc

run-worker :
    (ext : External) (p : Process) (e : Environment) (app : App)
    → run ext p e ≡ started app
    → app.worker ≡ worker_of (config_of e).worker
unfolding with_authenticator app_of
run-worker ext p e app h =
    given (eqb (config_of e).api_keys []) (parse_key_pairs (config_of e).api_keys)
      (run-started ext p e app h)
  where
    given :
        (b : Bool) (r : ParsedKeys)
        → (if b
            then started (app_of ext (config_of e) none)
            else authenticator_of ext r (λ keys. started (app_of ext (config_of e) keys)))
          ≡ started app
        → app.worker ≡ worker_of (config_of e).worker
    given true r k = sym (ap (worker_in none) k)
    given false (keys_ok m) k = sym (ap (worker_in none) k)
    given false (keys_error x) k = cc

-- The worker of a server that starts polls at a positive interval, takes a positive number of
-- deliveries and of attempts, and waits a positive time before it tries again: whatever the
-- environment says.
pub run-IsPositive :
    (ext : External) (p : Process) (e : Environment) (app : App) (opts : Options)
    → run ext p e ≡ started app
    → app.worker ≡ some opts
    → (ltb_ℤ (pos 0) opts.interval ≡ true)
      × (ltb_ℤ (pos 0) opts.batch_size ≡ true)
      × (ltb_ℤ (pos 0) opts.max_attempt ≡ true)
      × (ltb_ℤ (pos 0) opts.base_delay ≡ true)
unfolding IsPositive
run-IsPositive ext p e app opts h w =
    worker_of-IsPositive (config_of e).worker opts (sym (run-worker ext p e app h) ∙ w)

-- A server that `run` starts with a value of API_KEYS that is not empty: a request whose key is no
-- secret of that value, and has the hash of none, changes no table but the log of attempts, under the
-- rules of net/http for patterns.
pub root_answer-unknown :
    (ext : External) (p : Process) (e : Environment) (app : App) (m : KeyMap)
    (text_of : ParseError → Bytes) (codec : Codec) (static : Static) (mux : Mux) (env : Env)
    (seconds : Float64) (req : Request) (r : Registry) (w : World)
    → run ext p e ≡ started app
    → eqb (config_of e).api_keys [] ≡ false
    → parse_key_pairs (config_of e).api_keys ≡ keys_ok m
    → IsMux mux
    → IsCollisionFree ext req.api_key m
    → configured_operator m req.api_key ≡ none
    → unaudited (root_answer ext app text_of codec static mux env seconds req r w).1.tables
      ≡ unaudited w.tables
unfolding root_answer instrumented
root_answer-unknown ext p e app m text_of codec static mux env seconds req r w h n q lawful f u =
    rw (with_keys ext (config_of e) m app n q (run-started ext p e app h)) (
      serve-rejected ext text_of app.dedup_window codec static mux _ env lawful (new_keys ext m [])
        req w (configured_accepted ext (config_of e).api_keys m req.api_key q f ∙ u))
