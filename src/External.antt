-- ===== src/External.antt =====
-- What the program takes from outside: the parts of Go's standard library that work on float64,
-- calendar time, SHA-256, JSON, glob patterns and Unicode case folding. Each is a field, without
-- laws; a theorem that needs one states it as a hypothesis. One field is for what the SQL of a listing
-- leaves open to PostgreSQL.
use device_telemetry_ro.Prelude.Int.{ℤ}
use device_telemetry_ro.Prelude.Bytes.{Bytes}
use device_telemetry_ro.Domain.{Time, Float64, Event, RouteRule}
use device_telemetry_ro.Domain.Errors.{Details}
use device_telemetry_ro.Prelude.{ℕ, Bool, Option, List}

pub record External : Type 0 where
  -- strconv.ParseFloat(s, 64); `none` is an error
  pub parse_float : Bytes → Option Float64
  -- the float64 of the constant m * 10^-k of the source
  pub constant : ℤ → ℕ → Float64
  pub is_nan : Float64 → Bool
  pub is_inf : Float64 → Bool
  pub lt_float : Float64 → Float64 → Bool
  pub le_float : Float64 → Float64 → Bool
  pub eq_float : Float64 → Float64 → Bool
  pub sub_float : Float64 → Float64 → Float64
  pub add_float : Float64 → Float64 → Float64
  pub neg_float : Float64 → Float64
  -- strconv.FormatFloat(v, 'g', -1, 64) and FormatFloat(v, 'f', -1, 64)
  pub format_float_g : Float64 → Bytes
  pub format_float_f : Float64 → Bytes
  -- time.Parse(time.RFC3339, s) and its inverse; `none` is an error
  pub parse_time : Bytes → Option Time
  pub format_time : Time → Bytes
  -- the decimal digits of UnixNano
  pub unix_nano : Time → Bytes
  -- SHA-256, in lower-case hexadecimal
  pub sha256_hex : Bytes → Bytes
  -- path.Match(pattern, name); `none` is ErrBadPattern
  pub path_match : Bytes → Bytes → Option Bool
  -- strings.EqualFold
  pub equal_fold : Bytes → Bytes → Bool
  -- json.Marshal of a rule
  pub marshal_rule : RouteRule → Bytes
  -- fmt's %v of the details of an error
  pub format_details : Details → Bytes
  -- whether PostgreSQL puts the first of two selected events of one time in front, in the query of a
  -- page of these rows with this number and size
  pub tie_order : List Event → ℤ → ℤ → Event → Event → Bool
  -- fmt's %q of a string
  pub quote : Bytes → Bytes
