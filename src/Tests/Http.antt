-- ===== src/Tests/Http.antt =====
-- Runs of the server: a mux with two routes, and requests with a known and an unknown key.
use mathlib.Core.Option.{some-injective}
use device_telemetry_ro.Prelude.{
  leb, if◌then◌else◌, ℕ, ◌≡◌, refl, sym, ap, subst, inl, Bool, true, false, ◌&&◌, ◌||◌, Option,
  none, some, [], ◌∷◌, arith,
}
use device_telemetry_ro.Prelude.Int.{pos}
use device_telemetry_ro.Prelude.Bytes.{Bytes, codes, eqb, eqb→eq}
use device_telemetry_ro.Domain.Errors.{Result, ok}
use device_telemetry_ro.Text.{trim_front, trim_space, split, index}
use device_telemetry_ro.Db.{◌>>=◌, World, pure, throw, catch, statement, query, insert, in_tx}
use device_telemetry_ro.Parser.{Telemetry, valid, parse_message, build_message}
use device_telemetry_ro.Store.Rules.{rule_row, create_rule, get_rule, append_change}
use device_telemetry_ro.Store.Audit.{audit_row, record_audit}
use device_telemetry_ro.Service.{
  starts_with, contains, contains_any, is_device_id, error_text, is_unique_violation,
}
use device_telemetry_ro.Service.Ingest.{TelemetryResult, ingest_telemetry}
use device_telemetry_ro.Service.RuleChanges.{new_rule, add_rule}
use device_telemetry_ro.Service.Recorded.{Recorded}
use device_telemetry_ro.Auth.{
  KeyMap, keys_ok, parse_pair, parse_pairs, parse_key_pairs, new_keys, audited, authenticate,
}
use device_telemetry_ro.Auth.Keys.{IsCollisionFree}
use device_telemetry_ro.Auth.Decision.{
  accepted_operator, unaudited, authenticate-decision, attempt_entry, authenticate-audits,
}
use device_telemetry_ro.Auth.Configured.{configured_operator, authenticate-configured}
use device_telemetry_ro.Http.{Request, Response, write_error, unauthorized, render, respond}
use device_telemetry_ro.Http.Handlers.{
  Env, decoded, undecodable, Codec, new_device_id, telemetry_answer, handle_telemetry,
  handle_create_rule,
}
use device_telemetry_ro.Http.Server.{
  Route, create_rule_route, stats_route, pattern_of, Mux, requires_auth, Static, handle, serve_mux,
  middleware, serve,
}
use device_telemetry_ro.Http.Routing.{admits, fixed_part, IsMux}
use device_telemetry_ro.Http.Reads.{serve-reads}
use device_telemetry_ro.Http.Errors.{replays, serve-rolled}
use device_telemetry_ro.Http.Guard.{serve-rejected, serve-unauthorized}
use device_telemetry_ro.Http.Ingested.{handle_telemetry-Recorded}
use device_telemetry_ro.Http.Ids.{new_device_id-is_device_id}
use device_telemetry_ro.Tests.{toy}
use device_telemetry_ro.Tests.Messages.{sample_message}
use device_telemetry_ro.Tests.Requests.{
  sample_tables, no_sequences, failing_after, no_text, new_input, answering, accepted_run,
  ingest_accepts,
}

abbrev pub sample_codec : Codec
sample_codec = record {
  decode_device = λ b. undecodable [];
  decode_status = λ b. undecodable [];
  decode_telemetry = λ b. decoded b;
  decode_rule = λ b. decoded new_input;
  atoi = λ b. pos 0;
}

abbrev pub sample_env : Env
sample_env = record {
  now = 6;
  store_now = 6;
  auth_now = 6;
  fresh_id = codes "f";
  draw = λ n. some n;
}

abbrev pub sample_static : Static
sample_static = record {
  index_file = codes "index.html";
  asset_file = λ s. s;
  serve_status = λ s. 200;
}

abbrev posts_rule : Request → Bool
posts_rule r = eqb r.method (codes "POST") && eqb r.path (codes "/api/v1/rules")

abbrev sample_route : Request → Option Route
sample_route r =
    if posts_rule r
    then some create_rule_route
    else if eqb r.method (codes "GET") && eqb r.path (codes "/api/v1/stats")
    then some stats_route
    else none

abbrev pub sample_mux : Mux
sample_mux = record { resolve = sample_route; own_status = λ r. 404 }

abbrev Fits : Request → Route → Type 0
Fits r route =
    (admits (pattern_of route).0 r.method ≡ true)
    × (starts_with (fixed_part (pattern_of route).1) r.path ≡ true)

starts_with_refl : (p : Bytes) → starts_with p p ≡ true
starts_with_refl [] = refl
starts_with_refl (c ∷ p) = ground (arith, starts_with_refl p)

exact-Fits :
    (r : Request) (x : Route)
    → eqb r.method (pattern_of x).0 && eqb r.path (fixed_part (pattern_of x).1) ≡ true
    → Fits r x
unfolding admits
exact-Fits r x h =
    let q =
      eqb→eq r.path (fixed_part (pattern_of x).1)
        (right (eqb r.method (pattern_of x).0) (eqb r.path (fixed_part (pattern_of x).1)) h) in
    (
      left (eqb r.method (pattern_of x).0) (eqb r.path (fixed_part (pattern_of x).1))
          (eqb r.method (codes "HEAD") && eqb (pattern_of x).0 (codes "GET")) h,
      subst (λ z. starts_with (fixed_part (pattern_of x).1) z ≡ true) (sym q)
          (starts_with_refl (fixed_part (pattern_of x).1)),
    )
  where
    left : (a b c : Bool) → a && b ≡ true → a || c ≡ true
    left a b c k = ground arith

    right : (a b : Bool) → a && b ≡ true → b ≡ true
    right a b k = ground arith

one-Fits :
    (r : Request) (x route : Route)
    → eqb r.method (pattern_of x).0 && eqb r.path (fixed_part (pattern_of x).1) ≡ true
    → some x ≡ some route
    → Fits r route
one-Fits r x route h q = subst (Fits r) (some-injective x route q) (exact-Fits r x h)

resolved :
    (r : Request) (x y route : Route) (b c : Bool)
    → (b ≡ true → some x ≡ some route → Fits r route)
    → (c ≡ true → some y ≡ some route → Fits r route)
    → (if b then some x else if c then some y else none) ≡ some route
    → Fits r route
resolved r x y route true c f g h = f refl h
resolved r x y route false true f g h = g refl h
resolved r x y route false false f g h = cc

pub sample_mux-IsMux : IsMux sample_mux
unfolding IsMux pattern_of fixed_part
sample_mux-IsMux r route h =
    resolved r create_rule_route stats_route route _ _ (one-Fits r create_rule_route route)
      (one-Fits r stats_route route) h

abbrev pub request : Bytes → Bytes → Bytes → Bytes → Request
request m p key body = record {
  method = m;
  path = p;
  api_key = key;
  remote = codes "1.2.3.4";
  query_value = λ s. [];
  body = body;
}

abbrev pub sample_keys : KeyMap
sample_keys = (codes "s3cret", record { operator = codes "ann"; enabled = true }) ∷ []

abbrev pub intruder : Request
intruder = request (codes "POST") (codes "/api/v1/rules") (codes "guess") []

abbrev member : Request
member = request (codes "POST") (codes "/api/v1/rules") (codes "s3cret") []

abbrev reader : Request
reader = request (codes "GET") (codes "/api/v1/stats") [] []

serve-reads_example :
    (serve toy no_text
      (pos 0)
      sample_codec
      sample_static
      sample_mux
      []
      sample_env
      (some sample_keys)
      reader
      answering).1.tables
    ≡ sample_tables
unfolding eqb
serve-reads_example =
    serve-reads toy no_text (pos 0) sample_codec sample_static sample_mux [] sample_env
      sample_mux-IsMux (some sample_keys) reader answering refl

intruder-unknown : accepted_operator sample_keys (codes "guess") ≡ none
unfolding accepted_operator eqb
intruder-unknown = refl

serve-rejected_example :
    unaudited
      (serve toy no_text
        (pos 0)
        sample_codec
        sample_static
        sample_mux
        []
        sample_env
        (some sample_keys)
        intruder
        answering).1.tables
    ≡ sample_tables
serve-rejected_example =
    serve-rejected toy no_text (pos 0) sample_codec sample_static sample_mux [] sample_env
      sample_mux-IsMux sample_keys intruder answering intruder-unknown

serve-unauthorized_example :
    (serve toy no_text
      (pos 0)
      sample_codec
      sample_static
      sample_mux
      []
      sample_env
      (some sample_keys)
      intruder
      answering).0
    ≡ unauthorized
serve-unauthorized_example =
    serve-unauthorized toy no_text (pos 0) sample_codec sample_static sample_mux [] sample_env
      sample_mux-IsMux sample_keys intruder (codes "rules") answering (inl refl) refl
      intruder-unknown

abbrev failed_run : Response × World
failed_run =
    serve toy no_text (pos 0) sample_codec sample_static sample_mux [] sample_env (some sample_keys)
      member (failing_after 4)

-- The database fails the entry of the log of changes, after the insert of the rule.
failed_run-status : failed_run.0.status ≡ 500
unfolding serve requires_auth eqb middleware authenticate audited record_audit serve_mux handle
    handle_create_rule respond add_rule new_rule get_rule create_rule append_change query statement
    in_tx insert catch contains_any contains is_unique_violation error_text ◌>>=◌ pure throw
    rule_row audit_row write_error
failed_run-status = refl

member-route : replays (sample_mux.resolve member) ≡ false
unfolding eqb
member-route = refl

serve-rolled_example : unaudited failed_run.1.tables ≡ sample_tables
serve-rolled_example =
    serve-rolled toy no_text (pos 0) sample_codec sample_env sample_static sample_mux []
      (some sample_keys) member (failing_after 4) member-route (high _ failed_run-status)
  where
    high : (n : ℕ) → n ≡ 500 → leb 400 n ≡ true
    high n h = ground arith

authenticate-decision_example :
    ((authenticate toy sample_keys 6 (codes "s3cret") [] [] (failing_after 0)).0
      ≡ ok (some (codes "ann")))
    × (unaudited (authenticate toy sample_keys 6 (codes "s3cret") [] [] (failing_after 0)).1.tables
        ≡ sample_tables)
unfolding accepted_operator eqb
authenticate-decision_example =
    authenticate-decision toy sample_keys 6 (codes "s3cret") [] [] (failing_after 0)

authenticate-audits_example :
    (authenticate toy sample_keys 6 (codes "guess") [] [] answering).1.tables.audits
    ≡ attempt_entry toy sample_keys 6 1 (codes "guess") [] [] ∷ []
authenticate-audits_example =
    authenticate-audits toy sample_keys 6 (codes "guess") [] [] sample_tables no_sequences

keys_parse : parse_key_pairs (codes "ann:s3cret") ≡ keys_ok sample_keys
unfolding parse_key_pairs parse_pairs parse_pair split index trim_space trim_front eqb
keys_parse = refl

keys_apart : IsCollisionFree toy (codes "s3cret") sample_keys
unfolding IsCollisionFree
keys_apart = ((λ e. e), tt)

authenticate-configured_example :
    (authenticate toy (new_keys toy sample_keys []) 6 (codes "s3cret") [] [] answering).0
    ≡ ok (some (codes "ann"))
unfolding configured_operator eqb
authenticate-configured_example =
    authenticate-configured toy (codes "ann:s3cret") sample_keys 6 (codes "s3cret") [] [] answering
      keys_parse keys_apart

abbrev telemetry_request : Request
telemetry_request =
    request (codes "POST") (codes "/api/v1/telemetry") (codes "s3cret") sample_message

abbrev created_run : Response × World
created_run =
    handle_telemetry toy no_text (pos 0) sample_codec sample_env telemetry_request answering

telemetry-created : created_run.0.status ≡ 201
unfolding handle_telemetry respond eqb build_message ingest_telemetry
telemetry-created =
    ap
      (λ (z : Result TelemetryResult).
        (render (telemetry_answer toy no_text (pos 0) sample_codec sample_env)
          (z, accepted_run.1)).0.status)
      ingest_accepts

handle_telemetry-Recorded_example :
    (raw_text : Bytes) × (res : TelemetryResult) × (tel : Telemetry)
    × (sample_codec.decode_telemetry telemetry_request.body ≡ decoded raw_text)
    × (created_run.0 ≡ telemetry_answer toy no_text (pos 0) sample_codec sample_env res)
    × (parse_message toy raw_text 6 ≡ valid tel)
    × Recorded toy 6 (codes "f") raw_text tel res sample_tables created_run.1.tables
handle_telemetry-Recorded_example =
    handle_telemetry-Recorded toy no_text (pos 0) sample_codec sample_env telemetry_request
      answering telemetry-created

new_device_id-is_device_id_example : is_device_id (new_device_id (λ n. none)) ≡ true
new_device_id-is_device_id_example = new_device_id-is_device_id (λ n. none)
