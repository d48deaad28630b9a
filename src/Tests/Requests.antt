-- ===== src/Tests/Requests.antt =====
-- The service and the worker on concrete tables.
use mathlib.Core.List.{Pairwise-pair}
use mathlib.Core.HLevel.{¬_prop}
use mathlib.Core.List.{Mem, Perm, mem-cons_self}
use device_telemetry_ro.Prelude.{
  length, keep, find, ℕ, zero, suc, ◌*◌, ◌≤◌, ◌≡◌, refl, sym, ap, ◌∙◌, ◌≢◌, true, false, Option,
  none, some, List, [], ◌∷◌, map, arith,
}
use device_telemetry_ro.Prelude.Int.{pos}
use device_telemetry_ro.Prelude.Bytes.{Bytes, codes, eqb}
use device_telemetry_ro.Domain.{
  device_active, Device, raw_parsed, RawMessage, Event, DeliveryStatus, delivery_dispatched,
  delivery_failed, DeliveryRecord,
}
use device_telemetry_ro.Domain.Errors.{Error, driver, Result, ok, err}
use device_telemetry_ro.Text.{trim_front, trim_space}
use device_telemetry_ro.Db.{
  ◌>>=◌, Tables, Sequences, World, world, pure, throw, catch, statement, query, update, insert,
  in_tx,
}
use device_telemetry_ro.Expr.{match_expr}
use device_telemetry_ro.Router.{
  insert_rule, sort_rules, match_device, match_metrics, selects, match_rules, topics,
}
use device_telemetry_ro.Parser.{Telemetry, ParseError, Checked, valid, parse_message}
use device_telemetry_ro.Parser.RoundTrip.{written, parse_message-build}
use device_telemetry_ro.Store.Devices.{
  get_device, touch_seen, raw_row, insert_raw, find_by_dedup_key, event_row, create_event,
  get_event,
}
use device_telemetry_ro.Store.Rules.{
  rule_row, create_rule, get_rule, update_rule, soft_delete, is_live, list_rules, append_change,
}
use device_telemetry_ro.Store.Deliveries.{delivery_row, create_delivery, list_deliveries_by_event}
use device_telemetry_ro.Store.Listing.{EventFilter, passes_filter}
use device_telemetry_ro.Store.Pages.{first_pages, DistinctTimes, first_pages-perm}
use device_telemetry_ro.Dedup.{dedup_key}
use device_telemetry_ro.Service.{
  contains, contains_any, error_text, is_unique_violation, find_device, find_event,
}
use device_telemetry_ro.Service.Ingest.{
  TelemetryResult, deliver, matching, duplicate_result, record_telemetry, after_error,
  ingest_parsed, parsed_or, ingest_telemetry,
}
use device_telemetry_ro.Service.RuleChanges.{
  RuleInput, live_rule, new_rule, add_rule, change_rule, delete_rule,
}
use device_telemetry_ro.Service.Replay.{ReplayResult, waiting_rules, deliver_missing, replay_event}
use device_telemetry_ro.Service.Safe.{
  ingest_telemetry-tables, change_rule-tables, delete_rule-tables, add_rule-tables,
}
use device_telemetry_ro.Service.Duplicate.{ingest_telemetry-duplicate}
use device_telemetry_ro.Service.Recorded.{Recorded, ingest_telemetry-Recorded}
use device_telemetry_ro.Service.Replayed.{missing, Replayed, replay_event-Replayed}
use device_telemetry_ro.Worker.{Options, backoff, DispatchPayload, process_once}
use device_telemetry_ro.Worker.Backoff.{backoff-smaller}
use device_telemetry_ro.Worker.Attempts.{WithinAttempts, RetryBound, process_once-RetryBound}
use device_telemetry_ro.Worker.Settled.{DistinctDeliveries, process_once-Stored}
use device_telemetry_ro.Tests.{toy, sample_event, matcher_of, rule_of, one_of}
use device_telemetry_ro.Tests.Messages.{sample, sample-Printable, sample_message}

abbrev sample_device : Device
sample_device = record {
  device_id = codes "DEVICE01";
  name = codes "pump";
  protocol_version = codes "v1";
  status = device_active;
  metadata = [];
  last_seen_at = none;
  created_at = 1;
  updated_at = 1;
}

abbrev delivery_of : ℕ → DeliveryStatus → ℕ → DeliveryRecord
delivery_of id status attempts = record {
  id = id;
  event_id = codes "e1";
  rule_id = codes "a";
  topic = codes "t";
  status = status;
  attempts = attempts;
  last_error = [];
  next_retry_at = some 5;
  dispatched_at = none;
}

abbrev sent : DeliveryRecord
sent = delivery_of 1 delivery_dispatched 1

abbrev waiting : DeliveryRecord
waiting = delivery_of 2 delivery_failed 3

abbrev pub sample_tables : Tables
sample_tables = record {
  devices = sample_device ∷ [];
  raws = [];
  events = sample_event ∷ [];
  rules = rule_of 1 (codes "a") 1 (matcher_of []) ∷ [];
  changes = [];
  deliveries = sent ∷ waiting ∷ [];
  audits = [];
}

abbrev pub no_sequences : Sequences
no_sequences = record {
  raw_seq = 0;
  event_seq = 1;
  rule_seq = 1;
  change_seq = 0;
  delivery_seq = 2;
  audit_seq = 0;
}

-- a database that fails the statement after the first `n`
abbrev answers : ℕ → List (Option Bytes)
answers zero = some (codes "down") ∷ []
answers (suc n) = none ∷ answers n

abbrev pub failing_after : ℕ → World
failing_after n = record { tables = sample_tables; sequences = no_sequences; faults = answers n }

abbrev pub no_text : ParseError → Bytes
no_text e = []

abbrev down : Error
down = driver (codes "down")

-- The database fails the insert of the raw message, after that of the event.
ingest_fails :
    (ingest_telemetry toy no_text (pos 0) 6 (codes "f") sample_message (failing_after 5)).0
    ≡ err down
unfolding ingest_telemetry written ingest_parsed record_telemetry find_device get_device
    find_by_dedup_key create_event event_row insert_raw raw_row query statement in_tx insert catch
    after_error ◌>>=◌ pure throw eqb
ingest_fails =
    ap
      (λ (c : Checked Telemetry).
        (parsed_or toy no_text c (ingest_parsed toy (pos 0) 6 (codes "f") sample_message)
          (failing_after 5)).0)
      (parse_message-build toy 6 sample sample-Printable)

ingest_telemetry-tables_example :
    (ingest_telemetry toy no_text (pos 0) 6 (codes "f") sample_message (failing_after 5)).1.tables
    ≡ sample_tables
ingest_telemetry-tables_example =
    ingest_telemetry-tables toy no_text (pos 0) 6 (codes "f") sample_message (failing_after 5) down
      ingest_fails

abbrev pub new_input : RuleInput
new_input = record {
  rule_id = codes "c";
  name = codes "c";
  matcher = matcher_of [];
  topic = codes "t";
  priority = pos 1;
  enabled = true;
}

-- The database fails the entry of the log, after the change of the rule.
change_fails : (change_rule toy 9 none (codes "a") new_input (failing_after 3)).0 ≡ err down
unfolding change_rule live_rule get_rule update_rule append_change query statement in_tx insert
    update ◌>>=◌ pure throw eqb
change_fails = refl

change_rule-tables_example :
    (change_rule toy 9 none (codes "a") new_input (failing_after 3)).1.tables ≡ sample_tables
change_rule-tables_example =
    change_rule-tables toy 9 none (codes "a") new_input (failing_after 3) down change_fails

delete_fails : (delete_rule toy 9 none (codes "a") (failing_after 3)).0 ≡ err down
unfolding delete_rule live_rule get_rule soft_delete append_change query statement in_tx insert
    update ◌>>=◌ pure throw eqb
delete_fails = refl

delete_rule-tables_example :
    (delete_rule toy 9 none (codes "a") (failing_after 3)).1.tables ≡ sample_tables
delete_rule-tables_example =
    delete_rule-tables toy 9 none (codes "a") (failing_after 3) down delete_fails

add_fails : (add_rule toy 9 [] none new_input (failing_after 3)).0 ≡ err down
unfolding add_rule new_rule get_rule create_rule append_change query statement in_tx insert catch
    contains_any contains is_unique_violation error_text ◌>>=◌ pure throw eqb rule_row
add_fails = refl

add_rule-tables_example :
    (add_rule toy 9 [] none new_input (failing_after 3)).1.tables ≡ sample_tables
add_rule-tables_example = add_rule-tables toy 9 [] none new_input (failing_after 3) down add_fails

abbrev pub strict : Options
strict = record { interval = pos 1; batch_size = pos 10; max_attempt = pos 5; base_delay = pos 1 }

abbrev pub refuse : ℕ → Bytes → Bytes → Option Bytes
refuse id topic payload = some (codes "busy")

abbrev no_payload : DispatchPayload → Result Bytes
no_payload p = ok []

process_once-RetryBound_example :
    RetryBound (pos 5) (process_once no_payload refuse strict 6 (failing_after 2)).1.tables
unfolding RetryBound WithinAttempts
process_once-RetryBound_example =
    process_once-RetryBound strict no_payload refuse 6 (failing_after 2) (refl, (refl, tt))

DeliveryRecord-set : IsSet DeliveryRecord
DeliveryRecord-set = hlevel

abbrev number_of : DeliveryRecord → ℕ
number_of d = d.id

numbers_apart : (a b : DeliveryRecord) → a ≡ sent → b ≡ waiting → a.id ≢ b.id
numbers_apart a b p q e =
    let n : ◌≡◌ {A = ℕ} 1 2 = sym (ap number_of p) ∙ e ∙ ap number_of q in omega arith

sample-DistinctDeliveries : DistinctDeliveries sample_tables
unfolding DistinctDeliveries
sample-DistinctDeliveries a b ma mb e =
    one_of sent waiting a (DeliveryRecord-set a b)
      (λ p.
        one_of sent waiting b (DeliveryRecord-set a b) (λ q. p ∙ sym q)
          (λ q. absurd (numbers_apart a b p q e)) mb)
      (λ p.
        one_of sent waiting b (DeliveryRecord-set a b) (λ q. absurd (numbers_apart b a q p (sym e)))
          (λ q. p ∙ sym q) mb)
      ma

process_once-Stored_example :
    Mem sent (process_once no_payload refuse strict 6 (failing_after 2)).1.tables.deliveries
process_once-Stored_example =
    process_once-Stored sent strict no_payload refuse 6 (failing_after 2) refl
      sample-DistinctDeliveries mem-cons_self

backoff-smaller_example : backoff (pos 1000) 4 ≡ pos 8000
backoff-smaller_example = backoff-smaller 1000 3 (omega arith)

abbrev pub answering : World
answering = record { tables = sample_tables; sequences = no_sequences; faults = [] }

abbrev pub accepted_result : TelemetryResult
accepted_result = record {
  event_id = codes "f";
  duplicate = false;
  matched_rules = codes "a" ∷ [];
  topics = codes "t" ∷ [];
}

abbrev pub accepted_run : Result TelemetryResult × World
accepted_run = ingest_telemetry toy no_text (pos 0) 6 (codes "f") sample_message answering

pub ingest_accepts : accepted_run.0 ≡ ok accepted_result
unfolding ingest_telemetry written ingest_parsed record_telemetry find_device get_device
    find_by_dedup_key create_event event_row insert_raw raw_row query statement in_tx insert catch
    after_error ◌>>=◌ pure throw eqb touch_seen update matching list_rules match_rules selects
    match_device match_metrics match_expr sort_rules insert_rule topics deliver create_delivery
    delivery_row trim_space trim_front
ingest_accepts =
    ap
      (λ (c : Checked Telemetry).
        (parsed_or toy no_text c (ingest_parsed toy (pos 0) 6 (codes "f") sample_message)
          answering).0)
      (parse_message-build toy 6 sample sample-Printable)

ingest_telemetry-Recorded_example :
    (tel : Telemetry) × (parse_message toy sample_message 6 ≡ valid tel)
    × Recorded toy 6
        (codes "f")
        sample_message
        tel
        accepted_result
        sample_tables
        accepted_run.1.tables
ingest_telemetry-Recorded_example =
    ingest_telemetry-Recorded toy 6 (codes "f") sample_message no_text (pos 0) answering
      accepted_run.1 accepted_result
      (ap (λ (z : Result TelemetryResult). (z, accepted_run.1)) ingest_accepts) refl

abbrev pub sample_key : Bytes
sample_key = dedup_key toy (codes "DEVICE01") 5 (codes "temperature") 5 (codes "C")

-- a parsed message with the key of the sample, out of the window of the request
abbrev old_message : RawMessage
old_message = record {
  id = 1;
  device_id = codes "DEVICE01";
  raw_text = [];
  checksum_received = [];
  checksum_expected = [];
  received_at = 1;
  dedup_key = sample_key;
  status = raw_parsed;
  parse_error = [];
  event_id = some (codes "e1");
}

abbrev repeated : Tables
repeated = record sample_tables { raws = old_message ∷ [] }

old_message-found : find (λ x. eqb x.dedup_key sample_key) repeated.raws ≡ some old_message
unfolding dedup_key eqb
old_message-found = refl

sample_device-found :
    find (λ x. eqb x.device_id (codes "DEVICE01")) repeated.devices ≡ some sample_device
unfolding eqb
sample_device-found = refl

abbrev repeated_run : Result TelemetryResult × World
repeated_run =
    ingest_telemetry toy no_text (pos 0) 6 (codes "f") sample_message
      (world repeated no_sequences [])

ingest_telemetry-duplicate_example :
    (repeated_run ≡ duplicate_result toy old_message (world repeated no_sequences []))
    × (repeated_run.1.tables ≡ repeated)
unfolding written
ingest_telemetry-duplicate_example =
    ingest_telemetry-duplicate toy no_text (pos 0) 6 (codes "f") sample_message
      (written toy 6 sample sample-Printable) sample_device old_message repeated no_sequences
      (parse_message-build toy 6 sample sample-Printable) sample_device-found refl old_message-found
      refl

abbrev replay_result : ReplayResult
replay_result = record {
  event_id = codes "e1";
  matched_rules = codes "a" ∷ [];
  created_rules = codes "a" ∷ [];
  replayed_count = 1;
}

abbrev sent_only : World
sent_only = world (record sample_tables { deliveries = sent ∷ [] }) no_sequences []

replays : (replay_event toy 6 (codes "e1") sent_only).0 ≡ ok replay_result
unfolding replay_event find_event get_event matching list_rules list_deliveries_by_event
    deliver_missing waiting_rules create_delivery delivery_row query statement insert ◌>>=◌ pure
    throw eqb match_rules selects match_device match_metrics match_expr sort_rules insert_rule
    trim_space trim_front
replays = refl

replay_event-Replayed_example :
    (ev : Event) × (find (λ e. eqb e.event_id (codes "e1")) sent_only.tables.events ≡ some ev)
    × (codes "a" ∷ []
        ≡ map
            (λ x. x.rule_id)
            (match_rules toy ev (sort_rules (keep is_live sent_only.tables.rules))))
    × (1 ≡ length (codes "a" ∷ []))
    × Replayed 6
        (codes "e1")
        (missing
          (waiting_rules (keep (λ d. eqb d.event_id (codes "e1")) sent_only.tables.deliveries))
          (match_rules toy ev (sort_rules (keep is_live sent_only.tables.rules))))
        (codes "a" ∷ [])
        sent_only.tables
        (replay_event toy 6 (codes "e1") sent_only).1.tables
replay_event-Replayed_example =
    replay_event-Replayed toy 6 (codes "e1") sent_only (replay_event toy 6 (codes "e1") sent_only).1
      replay_result
      (ap (λ (z : Result ReplayResult). (z, (replay_event toy 6 (codes "e1") sent_only).1)) replays)

abbrev second_event : Event
second_event = record sample_event { id = 2; event_id = codes "e2"; ts = 7 }

abbrev two_events : Tables
two_events = record sample_tables { events = sample_event ∷ second_event ∷ [] }

abbrev by_one : EventFilter
by_one = record {
  device_id = codes "DEVICE01";
  metric = [];
  from = none;
  to = none;
  status = [];
  page = pos 1;
  size = pos 1;
}

both-listed : length (keep (passes_filter by_one) two_events.events) ≤ 2 * 1
unfolding passes_filter eqb
both-listed = omega arith

apart : sample_event.ts ≢ second_event.ts
apart h = omega arith

both-distinct : DistinctTimes (keep (passes_filter by_one) two_events.events)
unfolding passes_filter eqb
both-distinct = (Pairwise-pair (λ a b. ¬_prop)).1 apart

first_pages-perm_example :
    Perm
      (first_pages toy by_one 2 (world two_events no_sequences []))
      (keep (passes_filter by_one) two_events.events)
first_pages-perm_example =
    first_pages-perm toy by_one 1 refl (omega arith) two_events no_sequences 2 both-distinct
      (omega arith) both-listed
