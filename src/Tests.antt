-- ===== src/Tests.antt =====
-- Runs of the model on small inputs, with a small stand-in for the standard library: floats and
-- instants of one digit, SHA-256 as the identity, and patterns without wildcards.
pub mod Messages
pub mod Requests
pub mod Http
pub mod Worker
pub mod Start
use mathlib.Core.List.{Mem, mem-cons, not-mem-nil}
use mathlib.Core.Logic.Or
use device_telemetry_ro.Prelude.{
  ltb, leb, ◌==◌, if◌then◌else◌, ℕ, ◌+◌, ◌-◌, ◌≡◌, true, false, Option, none, some, List, [], ◌∷◌,
  ◌++◌,
}
use device_telemetry_ro.Prelude.Int.{pos, pos_part}
use device_telemetry_ro.Prelude.Bytes.{Bytes, codes, eqb}
use device_telemetry_ro.Domain.{event_created, Event, Matcher, RouteRule}
use device_telemetry_ro.External.{External}
use device_telemetry_ro.Text.{is_digit}
use device_telemetry_ro.Dedup.{dedup_key}

abbrev digit : Bytes → Option ℕ
digit (c ∷ []) = if is_digit c then some (c - 48) else none
digit _ = none

abbrev pub toy : External
toy = record {
  parse_float = digit;
  constant = λ n k. pos_part n;
  is_nan = λ v. false;
  is_inf = λ v. false;
  lt_float = ltb;
  le_float = leb;
  eq_float = λ a b. a == b;
  sub_float = λ a b. a - b;
  add_float = λ a b. a + b;
  neg_float = λ a. a;
  format_float_g = λ v. (v + 48) ∷ [];
  format_float_f = λ v. (v + 48) ∷ [];
  parse_time = digit;
  format_time = λ t. (t + 48) ∷ [];
  unix_nano = λ t. (t + 48) ∷ [];
  sha256_hex = λ s. s;
  path_match = λ p n. some (eqb p n);
  equal_fold = eqb;
  marshal_rule = λ r. r.rule_id;
  format_details = λ d. [];
  tie_order = λ rows page size a b. leb a.id b.id;
  quote = λ s. b'"' ∷ s ++ b'"' ∷ [];
}

abbrev pub sample_event : Event
sample_event = record {
  id = 1;
  event_id = codes "e1";
  device_id = codes "DEVICE01";
  ts = 5;
  metric = codes "temperature";
  value = 5;
  unit = codes "C";
  dedup_key = codes "k";
  route_key = codes "temperature";
  status = event_created;
  parsed_at = 5;
}

abbrev pub matcher_of : Bytes → Matcher
matcher_of expr = record { device_pattern = []; metrics = none; expr = expr }

abbrev pub rule_of : ℕ → Bytes → ℕ → Matcher → RouteRule
rule_of id rule_id priority matcher = record {
  id = id;
  rule_id = rule_id;
  name = rule_id;
  matcher = matcher;
  topic = codes "t";
  priority = pos priority;
  enabled = true;
  deleted_at = none;
  created_at = 1;
  updated_at = 1;
}

-- What holds for two elements holds for each member of their list.
pub one_of :
    {A : Type 0} (x y a : A) {Q : Type 0}
    → IsProp Q
    → (a ≡ x → Q)
    → (a ≡ y → Q)
    → Mem a (x ∷ y ∷ [])
    → Q
one_of x y a p f g m =
    Or.elim p (mem-cons.0 m) f (λ k. Or.elim p (mem-cons.0 k) g (λ n. absurd (not-mem-nil n)))
