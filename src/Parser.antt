-- ===== src/Parser.antt =====
-- internal/parser/parser.go: the text protocol DEVICE_ID|TIMESTAMP|METRIC|VALUE|UNIT|CHECKSUM. An
-- error is a constructor with what its message shows.
pub mod Crc
pub mod Xor
pub mod Checksum
pub mod Accept
pub mod RoundTrip
pub mod Printable
pub mod Corrupt
use Prim.Native.Nat.{bit_and, bit_xor}
use device_telemetry_ro.Prelude.{
  ltb, ◌==◌, if◌then◌else◌, length, take, drop, ℕ, zero, suc, ◌+◌, ◌*◌, ◌%◌, Bool, true, false, not,
  ◌||◌, Option, none, some, List, [], ◌∷◌, ◌++◌, map,
}
use device_telemetry_ro.Prelude.Int.{ℤ, pos, negsuc}
use device_telemetry_ro.Prelude.Bytes.{Bytes, codes, eqb}
use device_telemetry_ro.Domain.{Time, Float64}
use device_telemetry_ro.External.{External}
use device_telemetry_ro.Text.{
  is_upper, is_digit, trim_space, split, last_index, to_upper, is_hex_string, hex4,
}

pub record Telemetry : Type 0 where
  pub device_id : Bytes
  pub ts : Time
  pub metric : Bytes
  pub value : Float64
  pub unit : Bytes
  pub checksum : Bytes

pub data ParseError : Type 0 where
  empty_raw_text raw_text_too_long missing_checksum empty_checksum : ParseError
  invalid_checksum_format device_id_length invalid_timestamp : ParseError
  timestamp_in_future timestamp_too_old : ParseError
  field_count : ℕ → ParseError
  device_id_character : ℕ → ParseError
  unknown_metric : Bytes → ParseError
  non_numeric_value : Bytes → ParseError
  value_out_of_range : Float64 → Float64 → Float64 → ParseError
  checksum_mismatch : Bytes → Bytes → ParseError

pub data Checked {ℓ} (A : Type ℓ) : Type ℓ where
  valid : A → Checked A
  invalid : ParseError → Checked A

infixl 5 ◌>>=◌ ◌>>◌
abbrev pub ◌>>=◌ {ℓ κ} : {A : Type ℓ} {B : Type κ} → Checked A → (A → Checked B) → Checked B
valid a >>= f = f a
invalid e >>= f = invalid e

abbrev pub ◌>>◌ {ℓ} : {B : Type ℓ} → Checked (Unit {0}) → Checked B → Checked B
m >> k = m >>= λ _. k

-- `if test { return err }`
abbrev pub reject_if : Bool → ParseError → Checked (Unit {0})
reject_if true e = invalid e
reject_if false e = valid tt

abbrev pub bar : ℕ
bar = b'|'

abbrev pub minute : ℕ
minute = 60 * 1_000_000_000

abbrev pub day : ℕ
day = 24 * 60 * minute

abbrev int : External → ℤ → Float64
int ext n = ext.constant n 0

-- `MetricRanges`
unfoldable pub metric_range : External → Bytes → Option (Float64 × Float64)
metric_range ext metric =
    if eqb metric (codes "temperature")
    then some (int ext (negsuc 59), int ext (pos 120))
    else if eqb metric (codes "humidity")
    then some (int ext (pos 0), int ext (pos 100))
    else if eqb metric (codes "pressure")
    then some (int ext (pos 800), int ext (pos 1200))
    else if eqb metric (codes "voltage")
    then some (int ext (pos 0), int ext (pos 40))
    else if eqb metric (codes "current")
    then some (int ext (pos 0), int ext (pos 100))
    else if eqb metric (codes "wind_speed")
    then some (int ext (pos 0), int ext (pos 80))
    else none

-- one round of the inner loop on a uint16
unfoldable pub crc_bit : ℕ → ℕ
crc_bit crc = if bit_and crc 0x8000 == 0 then crc * 2 % 65536 else bit_xor (crc * 2 % 65536) 0x1021

unfoldable pub crc_bits : ℕ → ℕ → ℕ
unfolding crc_bit
crc_bits zero crc = crc
crc_bits (suc n) crc = crc_bits n (crc_bit crc)

-- one round of the outer loop
unfoldable pub crc_byte : ℕ → ℕ → ℕ
unfolding crc_bits
crc_byte crc b = crc_bits 8 (bit_xor crc (b * 256 % 65536))

unfoldable pub crc_from : ℕ → Bytes → ℕ
unfolding crc_byte
crc_from crc [] = crc
crc_from crc (b ∷ body) = crc_from (crc_byte crc b) body

-- `ChecksumHex`
unfoldable pub checksum_hex : Bytes → Bytes
unfolding crc_from
checksum_hex body = hex4 (crc_from 0xffff body)

abbrev pub device_id_byte : ℕ → Bool
device_id_byte c = is_upper c || is_digit c || c == b'-'

unfoldable pub device_id_bytes : Bytes → Checked (Unit {0})
device_id_bytes [] = valid tt
device_id_bytes (c ∷ cs) = do
  reject_if (not (device_id_byte c)) (device_id_character c)
  device_id_bytes cs

-- `validateDeviceID`
unfoldable pub validate_device_id : Bytes → Checked (Unit {0})
validate_device_id id = do
  reject_if (ltb (length id) 8 || ltb 32 (length id)) device_id_length
  device_id_bytes id

abbrev pub checksum_after : Bytes → Option ℕ → Checked (Bytes × Bytes)
checksum_after raw none = invalid missing_checksum
checksum_after raw (some idx) =
    let checksum = drop (idx + 1) raw in
    do
      reject_if (eqb checksum []) empty_checksum
      reject_if (not (is_hex_string (map to_upper checksum))) invalid_checksum_format
      valid (take idx raw, checksum)

-- `splitChecksum`
unfoldable pub split_checksum : Bytes → Checked (Bytes × Bytes)
split_checksum raw = checksum_after raw (last_index bar raw)

abbrev pub five_fields : List Bytes → Checked (Bytes × Bytes × Bytes × Bytes × Bytes)
five_fields (a ∷ b ∷ c ∷ d ∷ e ∷ []) = valid (a, b, c, d, e)
five_fields fs = invalid (field_count (length fs))

abbrev pub or_invalid {ℓ} : {A : Type ℓ} → Option A → ParseError → Checked A
or_invalid none e = invalid e
or_invalid (some a) e = valid a

abbrev pub in_range : External → Float64 → Option (Float64 × Float64) → Checked (Unit {0})
in_range ext v none = valid tt
in_range ext v (some (lo, hi)) =
    reject_if (ext.lt_float v lo || ext.lt_float hi v) (value_out_of_range v lo hi)

abbrev pub known : Option (Float64 × Float64) → Bool
known none = false
known (some r) = true

module _ (ext : External) where
  -- the checks on the time: at most five minutes ahead, at most thirty days back
  unfoldable pub check_time : Time → Bytes → Checked Time
  check_time now field_ = do
    ts ← or_invalid (ext.parse_time field_) invalid_timestamp
    reject_if (ltb (now + 5 * minute) ts) timestamp_in_future
    reject_if (ltb (ts + 30 * day) now) timestamp_too_old
    valid ts

  -- the checks on the metric and the value
  unfoldable pub check_value : Bytes → Bytes → Checked Float64
  check_value metric field_ = do
    reject_if (not (known (metric_range ext metric))) (unknown_metric metric)
    val ← or_invalid (ext.parse_float (trim_space field_)) (non_numeric_value field_)
    reject_if (ext.is_nan val || ext.is_inf val) (non_numeric_value field_)
    in_range ext val (metric_range ext metric)
    valid val

  -- what `ParseMessage` does with the body and the checksum
  unfoldable pub parse_body : Time → Bytes → Bytes → Checked Telemetry
  parse_body now body checksum = do
    (id, time_field, metric_field, value_field, unit_field) ← five_fields (split bar body)
    validate_device_id id
    ts ← check_time now time_field
    val ← check_value (trim_space metric_field) value_field
    reject_if (not (eqb (map to_upper checksum) (checksum_hex body)))
        (checksum_mismatch checksum (checksum_hex body))
    valid (record {
      device_id = id;
      ts = ts;
      metric = trim_space metric_field;
      value = val;
      unit = trim_space unit_field;
      checksum = checksum_hex body;
    })

  -- `ParseMessage`
  unfoldable pub parse_message : Bytes → Time → Checked Telemetry
  parse_message raw now = do
    reject_if (eqb (trim_space raw) []) empty_raw_text
    reject_if (ltb 4096 (length raw)) raw_text_too_long
    (body, checksum) ← split_checksum raw
    parse_body now body checksum

  abbrev pub message_body : Bytes → Time → Bytes → Float64 → Bytes → Bytes
  message_body device_id ts metric value unit =
      device_id
      ++ bar
        ∷ (ext.format_time ts ++ bar ∷ (metric ++ bar ∷ (ext.format_float_f value ++ bar ∷ unit)))

  -- `BuildMessage`
  unfoldable pub build_message : Bytes → Time → Bytes → Float64 → Bytes → Bytes
  build_message device_id ts metric value unit =
      let body = message_body device_id ts metric value unit in body ++ bar ∷ checksum_hex body
