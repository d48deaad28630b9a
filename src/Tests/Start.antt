-- ===== src/Tests/Start.antt =====
-- Runs of the start, of the configuration and of the metrics.
use mathlib.Core.List.{Pairwise, Pairwise-pair}
use mathlib.Core.Bool.{Bool-set}
use mathlib.Core.List.Perm
use device_telemetry_ro.Prelude.{
  ltb, leb, if◌then◌else◌, All, ℕ, ◌+◌, ◌%◌, ◌≡◌, refl, true, false, not, Option, none, some, [],
  ◌∷◌, arith,
}
use device_telemetry_ro.Prelude.Int.{pos, pos_part, neg_part, ltb_ℤ}
use device_telemetry_ro.Prelude.Bytes.{Bytes, codes, eqb}
use device_telemetry_ro.Domain.Errors.{Result, ok}
use device_telemetry_ro.External.{External}
use device_telemetry_ro.Text.{trim_front, trim_space, split, index}
use device_telemetry_ro.Db.{World, world}
use device_telemetry_ro.Store.Lifecycle.{in_order}
use device_telemetry_ro.Worker.{Options, with_defaults, DispatchPayload, process_once}
use device_telemetry_ro.Config.{
  Environment, loaded, getenv, get_duration, get_bool, get_int, config_of, load, load-loaded,
}
use device_telemetry_ro.Metrics.{
  Counter, Gauge, Histogram, Registry, new_registry, change_at, nth, new_counter, new_gauge,
  new_histogram, default_bounds, new_default_histogram, bump_first, bump, observed,
}
use device_telemetry_ro.Metrics.Render.{render_all, sort_strings, metrics_text}
use device_telemetry_ro.Metrics.Order.{metrics_text-perm}
use device_telemetry_ro.Metrics.Buckets.{bucket_of, observed-bucket}
use device_telemetry_ro.Auth.{keys_ok, parse_pair, parse_pairs, parse_key_pairs, new_keys}
use device_telemetry_ro.Auth.Keys.{IsCollisionFree}
use device_telemetry_ro.Auth.Decision.{unaudited}
use device_telemetry_ro.Auth.Configured.{configured_operator}
use device_telemetry_ro.Http.{Request}
use device_telemetry_ro.Http.Handlers.{CreateDeviceReq, decoded, Codec}
use device_telemetry_ro.Http.Server.{
  Route, create_device_route, telemetry_route, create_rule_route, Mux, serve,
}
use device_telemetry_ro.Start.{
  Process, App, started, with_authenticator, worker_of, app_of, run, root_answer,
}
use device_telemetry_ro.Start.Wired.{run-IsPositive, root_answer-unknown}
use device_telemetry_ro.Start.Measured.{HasBound, root_answer-measured}
use device_telemetry_ro.Start.Lifecycle.{no_rows, Reachable, Reachable-InOrder}
use device_telemetry_ro.Tests.Http.{
  request, sample_codec, sample_env, sample_static, sample_mux, sample_mux-IsMux, sample_keys,
  intruder,
}
use device_telemetry_ro.Tests.{toy}
use device_telemetry_ro.Tests.Messages.{sample_message}
use device_telemetry_ro.Tests.Requests.{
  sample_tables, no_sequences, no_text, strict, refuse, answering,
}

abbrev sample_lookup : Bytes → Option Bytes
sample_lookup key = if eqb key (codes "API_KEYS") then some (codes "ann:s3cret") else none

abbrev sample_environment : Environment
sample_environment = record {
  lookup_env = sample_lookup;
  parse_duration = λ v. none;
  scan_int = λ v. none;
}

abbrev sample_process : Process
sample_process = record { open_db = λ u. none; ping_db = λ u. none; apply_migrations = λ u. none }

load-loaded_example : load sample_environment ≡ loaded (config_of sample_environment)
load-loaded_example = load-loaded sample_environment

abbrev sample_app : App
sample_app = app_of toy (config_of sample_environment) (some (new_keys toy sample_keys []))

sample-keys_set : eqb (config_of sample_environment).api_keys [] ≡ false
unfolding config_of eqb
sample-keys_set = refl

sample-keys_ok : parse_key_pairs (config_of sample_environment).api_keys ≡ keys_ok sample_keys
unfolding config_of parse_key_pairs parse_pairs parse_pair split index trim_space trim_front eqb
sample-keys_ok = refl

sample-started : run toy sample_process sample_environment ≡ started sample_app
unfolding run load config_of getenv with_authenticator parse_key_pairs parse_pairs parse_pair split
    index trim_space trim_front eqb
sample-started = refl

abbrev sample_options : Options
sample_options = record {
  interval = pos 2_000_000_000;
  batch_size = pos 100;
  max_attempt = pos 5;
  base_delay = pos 1_000_000_000;
}

sample-worker : sample_app.worker ≡ some sample_options
unfolding app_of worker_of with_defaults config_of get_bool get_int get_duration eqb
sample-worker = refl

run-IsPositive_example :
    (ltb_ℤ (pos 0) sample_options.interval ≡ true)
    × (ltb_ℤ (pos 0) sample_options.batch_size ≡ true)
    × (ltb_ℤ (pos 0) sample_options.max_attempt ≡ true)
    × (ltb_ℤ (pos 0) sample_options.base_delay ≡ true)
run-IsPositive_example =
    run-IsPositive toy sample_process sample_environment sample_app sample_options sample-started
      sample-worker

intruder_apart : IsCollisionFree toy (codes "guess") sample_keys
unfolding IsCollisionFree
intruder_apart = ((λ e. e), tt)

intruder_unconfigured : configured_operator sample_keys (codes "guess") ≡ none
unfolding configured_operator eqb
intruder_unconfigured = refl

root_answer-unknown_example :
    unaudited
      (root_answer toy sample_app no_text sample_codec sample_static sample_mux sample_env 1
        intruder sample_app.registry answering).1.tables
    ≡ sample_tables
root_answer-unknown_example =
    root_answer-unknown toy sample_process sample_environment sample_app sample_keys no_text
      sample_codec sample_static sample_mux sample_env 1 intruder sample_app.registry answering
      sample-started sample-keys_set sample-keys_ok sample_mux-IsMux intruder_apart
      intruder_unconfigured

-- floats of one bit
abbrev bits : External
bits = record toy { add_float = λ a b. (a + b) % 2; constant = λ n k. pos_part n + neg_part n }

abbrev bit_app : App
bit_app = app_of bits (config_of sample_environment) none

abbrev idle_gauge : Gauge
idle_gauge = record { value = 0; help = codes "In-flight HTTP requests."; label = [] }

abbrev no_requests : Histogram
no_requests = record {
  help = codes "HTTP request latency.";
  label = [];
  bounds = 5 ∷ 1 ∷ 25 ∷ 5 ∷ 1 ∷ 25 ∷ 5 ∷ 1 ∷ 25 ∷ 5 ∷ 10 ∷ [];
  counts = 0 ∷ 0 ∷ 0 ∷ 0 ∷ 0 ∷ 0 ∷ 0 ∷ 0 ∷ 0 ∷ 0 ∷ 0 ∷ 0 ∷ [];
  sum = 0;
  count = 0;
}

idle-found : nth bit_app.in_flight bit_app.registry.gauge_cells ≡ some idle_gauge
unfolding app_of new_gauge new_default_histogram new_histogram new_counter new_registry
idle-found = refl

no_requests-found : nth bit_app.duration bit_app.registry.histogram_cells ≡ some no_requests
unfolding app_of new_gauge new_default_histogram new_histogram new_counter new_registry
    default_bounds
no_requests-found = refl

no_requests-bounded : HasBound bits no_requests
unfolding HasBound
no_requests-bounded = (_, _, refl)

root_answer-measured_example :
    (r' : Registry) × (h' : Histogram) × ((root_answer bits bit_app no_text sample_codec
        sample_static sample_mux sample_env 1 intruder bit_app.registry answering).2
      ≡ some r')
    × (r'.gauge_cells ≡ bit_app.registry.gauge_cells)
    × (r'.counter_cells ≡ bit_app.registry.counter_cells)
    × (nth bit_app.duration r'.histogram_cells ≡ some h')
    × (h'.count ≡ 1)
    × (h'.sum ≡ 1)
root_answer-measured_example =
    root_answer-measured bits bit_app no_text sample_codec sample_static sample_mux sample_env 1
      intruder bit_app.registry answering idle_gauge no_requests idle-found refl no_requests-found
      no_requests-bounded

abbrev one_counter : ℕ → Counter
one_counter n = record { value = n; help = codes "A counter."; label = [] }

abbrev two_counters : Registry
two_counters = record {
  counters = (codes "sent", 0) ∷ (codes "lost", 1) ∷ [];
  gauges = [];
  histograms = [];
  counter_cells = one_counter 1 ∷ one_counter 0 ∷ [];
  gauge_cells = [];
  histogram_cells = [];
}

metrics_text-perm_example :
    render_all bits two_counters (sort_strings bits (codes "lost" ∷ codes "sent" ∷ []))
    ≡ metrics_text bits two_counters
metrics_text-perm_example =
    metrics_text-perm bits two_counters (codes "lost" ∷ codes "sent" ∷ [])
      (Perm.swap (codes "sent") (codes "lost") [])

abbrev two_bounds : Histogram
two_bounds = record {
  help = [];
  label = [];
  bounds = 1 ∷ 2 ∷ [];
  counts = 0 ∷ 0 ∷ 0 ∷ [];
  sum = 0;
  count = 0;
}

abbrev one_more : Histogram
one_more = record two_bounds { counts = 0 ∷ 1 ∷ 0 ∷ []; sum = 2; count = 1 }

one_more-observed : observed toy 2 two_bounds ≡ some one_more
unfolding observed bump_first
one_more-observed = refl

leb_trans : (x y z : ℕ) → leb x y ≡ true → leb y z ≡ true → leb x z ≡ true
leb_trans x y z p q = ground arith

bounds-compare : (s c : ℕ) → ltb c s ≡ not (leb s c)
bounds-compare s c = ground arith

bounds-ascend : Pairwise (λ c d. leb c d ≡ true) two_bounds.bounds
bounds-ascend = (Pairwise-pair (λ a b. Bool-set (leb a b) true)).1 refl

observed-bucket_example :
    one_more.counts ≡ change_at (bucket_of toy 2 two_bounds.bounds) (bump toy) two_bounds.counts
observed-bucket_example =
    observed-bucket toy 2 two_bounds one_more 1 (2 ∷ []) refl refl leb_trans
      (λ c m. bounds-compare 2 c) bounds-ascend one_more-observed

abbrev new_device : CreateDeviceReq
new_device = record {
  device_id = codes "DEVICE01";
  name = codes "pump";
  protocol_version = [];
  metadata = [];
}

abbrev device_codec : Codec
device_codec = record sample_codec { decode_device = λ b. decoded new_device }

abbrev all_posts : Request → Option Route
all_posts r =
    if eqb r.path (codes "/api/v1/devices")
    then some create_device_route
    else if eqb r.path (codes "/api/v1/rules")
    then some create_rule_route
    else some telemetry_route

abbrev post_mux : Mux
post_mux = record { resolve = all_posts; own_status = λ r. 404 }

abbrev posted : Bytes → Bytes → World → World
posted path body w =
    (serve toy no_text (pos 0) device_codec sample_static post_mux [] sample_env none
      (request (codes "POST") path [] body) w).1

abbrev no_bytes_of : DispatchPayload → Result Bytes
no_bytes_of p = ok []

abbrev empty_world : World
empty_world = world no_rows no_sequences []

abbrev ingested : World
ingested =
    posted (codes "/api/v1/telemetry") sample_message
      (posted (codes "/api/v1/rules") [] (posted (codes "/api/v1/devices") [] empty_world))

Reachable-InOrder_example :
    All
      (λ d. in_order d ≡ true)
      (process_once no_bytes_of refuse strict 6 ingested).1.tables.deliveries
Reachable-InOrder_example =
    Reachable-InOrder toy no_text (pos 0) device_codec sample_static post_mux none no_bytes_of
      strict (process_once no_bytes_of refuse strict 6 ingested).1
      (Reachable.pass refuse 6 ingested (
        Reachable.request [] sample_env
          (request (codes "POST") (codes "/api/v1/telemetry") [] sample_message) _
          (Reachable.request [] sample_env (request (codes "POST") (codes "/api/v1/rules") [] []) _
            (Reachable.request [] sample_env
              (request (codes "POST") (codes "/api/v1/devices") [] []) _
              (Reachable.empty no_sequences [])))))
