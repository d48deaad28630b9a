-- ===== src/Tests/Messages.antt =====
-- The parser, the expressions and the router on concrete inputs.
use mathlib.Core.List.Perm
use device_telemetry_ro.Prelude.{
  length, ℕ, ◌≡◌, refl, sym, ap, ◌∙◌, ◌≢◌, none, [], ◌∷◌, ◌++◌, arith,
}
use device_telemetry_ro.Prelude.Bytes.{Bytes, codes, eqb}
use device_telemetry_ro.Domain.{RouteRule}
use device_telemetry_ro.Text.{trim_space, last_index, hex_digit, hex4}
use device_telemetry_ro.Expr.{is_word_char, parse_or, fuel_for, match_expr}
use device_telemetry_ro.Expr.Scan.{Shorter}
use device_telemetry_ro.Expr.Fuel.{parse_or-Shorter}
use device_telemetry_ro.Expr.Syntax.{
  quoted, bare, eq_two, ge, lt, Disj, disj, no_disj, or_disj, conj, no_conj, and_conj, paren, test,
  eval_disj, show_disj, IsDisj,
}
use device_telemetry_ro.Expr.Meaning.{accepts, match_expr-show}
use device_telemetry_ro.Router.{match_rules}
use device_telemetry_ro.Router.Order.{DistinctIds}
use device_telemetry_ro.Router.Select.{match_rules-perm}
use device_telemetry_ro.Parser.{
  Telemetry, valid, bar, metric_range, crc_bit, crc_bits, crc_byte, crc_from, checksum_hex,
  parse_message, build_message,
}
use device_telemetry_ro.Parser.Checksum.{AreBytes}
use device_telemetry_ro.Parser.Accept.{Accepted, parse_message-Accepted}
use device_telemetry_ro.Parser.Printable.{Printable}
use device_telemetry_ro.Parser.RoundTrip.{written, parse_message-build}
use device_telemetry_ro.Parser.Corrupt.{parse_message-corrupt}
use device_telemetry_ro.Tests.{toy, sample_event, matcher_of, rule_of, one_of}

checksum_of_nine : checksum_hex (codes "123456789") ≡ codes "29B1"
unfolding checksum_hex crc_from crc_byte crc_bits crc_bit hex4 hex_digit
checksum_of_nine = refl

abbrev pub sample : Telemetry
sample = record {
  device_id = codes "DEVICE01";
  ts = 5;
  metric = codes "temperature";
  value = 5;
  unit = codes "C";
  checksum = [];
}

pub sample-Printable : Printable toy 6 sample
unfolding metric_range trim_space build_message checksum_hex hex4 eqb
sample-Printable = record {
  device = (omega arith, omega arith, refl);
  time = refl;
  time_lacks = refl;
  not_ahead = omega arith;
  not_old = omega arith;
  range = record {
    lo = 0;
    hi = 120;
    ranged = refl;
    not_nan = refl;
    not_inf = refl;
    not_below = refl;
    not_above = refl;
  };
  value = refl;
  value_trimmed = refl;
  value_lacks = refl;
  unit_trimmed = refl;
  unit_lacks = refl;
  short = omega arith;
}

parse_message-build_example :
    parse_message toy (build_message toy (codes "DEVICE01") 5 (codes "temperature") 5 (codes "C")) 6
    ≡ valid (written toy 6 sample sample-Printable)
parse_message-build_example = parse_message-build toy 6 sample sample-Printable

abbrev blank : Bytes
blank = codes " "

abbrev hot_in_celsius : Disj
hot_in_celsius =
    disj
      (conj (test b'v' (codes "alue") blank ge blank (quoted b'\'' (codes "4"))) (
        and_conj blank b'a' b'n' b'd' blank
          (test b'u' (codes "nit") blank eq_two blank (bare b'C' [])) no_conj))
      no_disj

abbrev cold_or_hot : Disj
cold_or_hot =
    disj (conj (test b'v' (codes "alue") [] lt [] (bare b'3' [])) no_conj)
      (or_disj blank b'O' b'R' blank (conj (paren [] hot_in_celsius []) no_conj) no_disj)

abbrev cold_or_hot_text : Bytes
cold_or_hot_text = codes " value<3 OR (value >= '4' and unit == C) "

parse_or-Shorter_example :
    Shorter
      (length cold_or_hot_text)
      (parse_or toy sample_event (fuel_for cold_or_hot_text) cold_or_hot_text)
parse_or-Shorter_example = parse_or-Shorter toy sample_event cold_or_hot_text

hot_in_celsius-IsDisj : IsDisj hot_in_celsius
unfolding is_word_char
hot_in_celsius-IsDisj = (
  (
    ((refl, refl), (refl, refl), refl, (refl, refl)),
    (
      ((refl, refl), (refl, refl), refl, refl, refl),
      ((refl, refl), (refl, refl), refl, (refl, refl, refl)),
      tt,
    ),
  ),
  tt,
)

cold_or_hot-IsDisj : IsDisj cold_or_hot
unfolding is_word_char
cold_or_hot-IsDisj = (
  (((refl, refl), (refl, refl), refl, (refl, refl, refl)), tt),
  (((refl, refl), (refl, refl), refl, refl), ((refl, hot_in_celsius-IsDisj, refl), tt), tt),
)

match_expr-show_example :
    match_expr toy cold_or_hot_text sample_event ≡ accepts (eval_disj toy sample_event cold_or_hot)
unfolding trim_space show_disj
match_expr-show_example =
    match_expr-show toy sample_event cold_or_hot cold_or_hot_text cold_or_hot-IsDisj refl

abbrev pub sample_message : Bytes
sample_message = build_message toy (codes "DEVICE01") 5 (codes "temperature") 5 (codes "C")

parse_message-Accepted_example :
    Accepted toy 6 sample_message (written toy 6 sample sample-Printable)
parse_message-Accepted_example =
    parse_message-Accepted toy 6 sample_message (written toy 6 sample sample-Printable)
      (parse_message-build toy 6 sample sample-Printable)

abbrev sample_tail : Bytes
sample_tail = codes "EVICE01|5|temperature|5|C"

abbrev sample_checksum : Bytes
sample_checksum = checksum_hex (b'D' ∷ sample_tail)

sample_bytes : AreBytes sample_tail
sample_bytes = ground arith

sample_checksum_lacks : last_index bar sample_checksum ≡ none
unfolding checksum_hex crc_from crc_byte crc_bits crc_bit hex4 hex_digit last_index
sample_checksum_lacks = refl

sample_accepted :
    parse_message toy ((b'D' ∷ sample_tail) ++ bar ∷ sample_checksum) 6
    ≡ valid (written toy 6 sample sample-Printable)
unfolding build_message
sample_accepted = parse_message-build toy 6 sample sample-Printable

parse_message-corrupt_example :
    parse_message toy ((b'F' ∷ sample_tail) ++ bar ∷ sample_checksum) 9
    ≢ valid (written toy 6 sample sample-Printable)
parse_message-corrupt_example =
    parse_message-corrupt toy 6 9 [] sample_tail sample_checksum b'D' b'F'
      (written toy 6 sample sample-Printable) (written toy 6 sample sample-Printable) tt
      sample_bytes (omega arith) (omega arith) (λ e. omega arith) sample_checksum_lacks
      sample_accepted

abbrev hot_rule : RouteRule
hot_rule = rule_of 1 (codes "a") 1 (matcher_of (codes "value > \"4\""))

abbrev any_rule : RouteRule
any_rule = rule_of 2 (codes "b") 7 (matcher_of [])

RouteRule-set : IsSet RouteRule
RouteRule-set = hlevel

abbrev first : Bytes → ℕ
first [] = 0
first (c ∷ s) = c

ids_apart : codes "a" ≢ codes "b"
ids_apart h = let f : ◌≡◌ {A = ℕ} 97 98 = ap first h in omega arith

abbrev id_of : RouteRule → Bytes
id_of r = r.rule_id

two_rules-DistinctIds : DistinctIds (hot_rule ∷ any_rule ∷ [])
two_rules-DistinctIds a b ma mb e =
    one_of hot_rule any_rule a (RouteRule-set a b)
      (λ p.
        one_of hot_rule any_rule b (RouteRule-set a b) (λ q. p ∙ sym q)
          (λ q. absurd (ids_apart (sym (ap id_of p) ∙ e ∙ ap id_of q))) mb)
      (λ p.
        one_of hot_rule any_rule b (RouteRule-set a b)
          (λ q. absurd (ids_apart (sym (ap id_of q) ∙ sym e ∙ ap id_of p))) (λ q. p ∙ sym q) mb)
      ma

match_rules-perm_example :
    match_rules toy sample_event (hot_rule ∷ any_rule ∷ [])
    ≡ match_rules toy sample_event (any_rule ∷ hot_rule ∷ [])
match_rules-perm_example =
    match_rules-perm toy sample_event two_rules-DistinctIds (Perm.swap any_rule hot_rule [])
