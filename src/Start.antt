-- ===== src/Start.antt =====
-- cmd/server/main.go: the parts of the program put together. Opening the database and migrating it
-- are parameters; the listening socket, the signals and the shutdown are left out. A request and a
-- pass of the worker work on the database and on the registry of the metrics.
pub mod Wired
pub mod Measured
pub mod Lifecycle
-- sql.Open, Ping and migrate.Apply; `some` is an error
use device_telemetry_ro.Prelude.{if◌then◌else◌, ℕ, Option, none, some, [], ◌∷◌}
use device_telemetry_ro.Prelude.Int.{ℤ, negsuc}
use device_telemetry_ro.Prelude.Bytes.{Bytes, codes, eqb}
use device_telemetry_ro.Domain.{Float64}
use device_telemetry_ro.External.{External}
use device_telemetry_ro.Parser.{ParseError}
use device_telemetry_ro.Db.{World}
use device_telemetry_ro.Worker.{Options, with_defaults}
use device_telemetry_ro.Config.{
  Environment, WorkerConfig, Config, Loaded, loaded, no_database_url, load,
}
use device_telemetry_ro.Metrics.{
  Registry, new_registry, new_counter, new_gauge, new_default_histogram, inc_counter, add_gauge,
  inc_gauge, observe,
}
use device_telemetry_ro.Metrics.Render.{metrics_text}
use device_telemetry_ro.Auth.{
  KeyMap, KeyError, ParsedKeys, keys_ok, keys_error, parse_key_pairs, new_keys,
}
use device_telemetry_ro.Http.{Request, Response}
use device_telemetry_ro.Http.Handlers.{Env, Codec}
use device_telemetry_ro.Http.Server.{Mux, Static, serve}

pub record Process : Type 0 where
  pub open_db : Bytes → Option Bytes
  pub ping_db : Bytes → Option Bytes
  pub apply_migrations : Bytes → Option Bytes

-- the values of the variables of `run`
pub record App : Type 0 where
  pub port : Bytes
  pub dedup_window : ℤ
  pub shutdown_timeout : ℤ
  pub keys : Option KeyMap
  pub worker : Option Options
  pub registry : Registry
  pub in_flight : ℕ
  pub duration : ℕ
  pub dispatch_total : ℕ

pub data Started : Type 0 where
  started : App → Started
  bad_config : Started
  bad_database : Bytes → Started
  bad_keys : KeyError → Started

abbrev pub unless_failed : Option Bytes → Started → Started
unless_failed none next = next
unless_failed (some text) next = bad_database text

abbrev pub authenticator_of : External → ParsedKeys → (Option KeyMap → Started) → Started
authenticator_of ext (keys_ok m) f = f (some (new_keys ext m []))
authenticator_of ext (keys_error e) f = bad_keys e

-- the authenticator of a value of API_KEYS
unfoldable pub with_authenticator : External → Bytes → (Option KeyMap → Started) → Started
with_authenticator ext spec f =
    if eqb spec [] then f none else authenticator_of ext (parse_key_pairs spec) f

-- the worker of a configuration
unfoldable pub worker_of : WorkerConfig → Option Options
worker_of c =
    if c.enabled
    then some (
        with_defaults (record {
          interval = c.interval;
          batch_size = c.batch_size;
          max_attempt = c.max_attempt;
          base_delay = c.base_delay;
        }))
    else none

module _ (ext : External) where
  -- the instruments of `run`
  unfoldable pub app_of : Config → Option KeyMap → App
  app_of c keys =
      let (in_flight, r1) =
        new_gauge ext (codes "telemetry_http_in_flight") (codes "In-flight HTTP requests.") []
          new_registry in
      let (duration, r2) =
        new_default_histogram ext (codes "telemetry_http_duration_seconds")
          (codes "HTTP request latency.") r1 in
      let (total, r3) =
        new_counter ext (codes "telemetry_dispatch_total") (codes "Total topic dispatch attempts.")
          (codes "outcome" ∷ []) r2 in
      record {
        port = c.port;
        dedup_window = c.dedup_window;
        shutdown_timeout = c.shutdown_timeout;
        keys = keys;
        worker = worker_of c.worker;
        registry = r3;
        in_flight = in_flight;
        duration = duration;
        dispatch_total = total;
      }

  abbrev pub run_loaded : Process → Loaded → Started
  run_loaded p no_database_url = bad_config
  run_loaded p (loaded c) = unless_failed (p.open_db c.database_url) (
      unless_failed (p.ping_db c.database_url) (
        unless_failed (p.apply_migrations c.database_url)
          (with_authenticator ext c.api_keys (λ keys. started (app_of c keys)))))

  -- `run`, up to where it listens
  unfoldable pub run : Process → Environment → Started
  run p e = run_loaded p (load e)

  -- `countingSink.Dispatch`: the counter counts the dispatches that succeed
  unfoldable pub counted :
      (Bytes → Bytes → Option Bytes) → ℕ → Bytes → Bytes → Registry → Option Bytes × Registry
  counted next counter topic payload r = elim (next topic payload) [
    | none ↦ (none, inc_counter ext counter r)
    | some text ↦ (some text, r)
  ]

  -- `instrumentHandler`, for a request that takes so many seconds; `none` is a panic of `Observe`
  unfoldable pub instrumented :
      ℕ
      → ℕ
      → Float64
      → (Registry → World → Response × World)
      → Registry
      → World
      → Response × World × Option Registry
  instrumented in_flight duration seconds next r w =
      let r1 = inc_gauge ext in_flight r in
      let (response, w') = next r1 w in
      (
        response,
        w',
        observe ext duration seconds (add_gauge ext in_flight (ext.constant (negsuc 0) 0) r1),
      )

  -- a request to the root handler
  unfoldable pub root_answer :
      App
      → (ParseError → Bytes)
      → Codec
      → Static
      → Mux
      → Env
      → Float64
      → Request
      → Registry
      → World
      → Response × World × Option Registry
  root_answer app text_of codec static mux env seconds req r w =
      instrumented app.in_flight app.duration seconds
        (λ reg.
          serve ext text_of app.dedup_window codec static mux (metrics_text ext reg) env app.keys
            req)
        r w
