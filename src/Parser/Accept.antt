-- ===== src/Parser/Accept.antt =====
-- What `ParseMessage` has checked of a message that it accepts.
use device_telemetry_ro.Prelude.{
  ltb, Option-cases, length, take, drop, all, ℕ, ◌+◌, ◌*◌, ◌≤◌, ◌≡◌, refl, sym, ap, subst, ◌∙◌, inl,
  inr, Bool, true, false, not, ◌||◌, Option, none, some, List, [], ◌∷◌, ◌++◌, map, arith,
}
use device_telemetry_ro.Prelude.Bytes.{Bytes, eqb, eqb→eq}
use device_telemetry_ro.Domain.{Time, Float64}
use device_telemetry_ro.External.{External}
use device_telemetry_ro.Text.{trim_space, split, last_index, to_upper, is_hex_string}
use device_telemetry_ro.Text.Cut.{last_index_cut}
use device_telemetry_ro.Parser.{
  ◌>>=◌, Telemetry, ParseError, empty_raw_text, raw_text_too_long, empty_checksum,
  invalid_checksum_format, device_id_length, device_id_character, unknown_metric, non_numeric_value,
  checksum_mismatch, Checked, valid, invalid, ◌>>◌, reject_if, bar, minute, day, metric_range,
  checksum_hex, device_id_byte, device_id_bytes, validate_device_id, checksum_after, split_checksum,
  five_fields, or_invalid, in_range, known, check_time, check_value, parse_body, parse_message,
}

>>=-eq-valid {ℓ κ} :
    {A : Type ℓ} {B : Type κ} (m : Checked A) (f : A → Checked B) {b : B}
    → (m >>= f) ≡ valid b
    → (a : A) × (m ≡ valid a) × (f a ≡ valid b)
>>=-eq-valid (valid a) f h = (a, refl, h)
>>=-eq-valid (invalid e) f h = cc

reject_if-passes {ℓ} :
    {A : Type ℓ} (test : Bool) (e : ParseError) (m : Checked A) {a : A}
    → (reject_if test e >> m) ≡ valid a
    → (test ≡ false) × (m ≡ valid a)
reject_if-passes true e m h = cc
reject_if-passes false e m h = (refl, h)

-- A device id that is accepted: 8 to 32 upper-case letters, digits and dashes.
abbrev pub IsDeviceId : Bytes → Type 0
IsDeviceId id = (8 ≤ length id) × (length id ≤ 32) × (all device_id_byte id ≡ true)

device_id_bytes-valid : (s : Bytes) → device_id_bytes s ≡ valid tt → all device_id_byte s ≡ true
unfolding device_id_bytes
device_id_bytes-valid [] h = refl
device_id_bytes-valid (c ∷ s) h =
    let (here, rest) =
      reject_if-passes (not (device_id_byte c)) (device_id_character c) (device_id_bytes s) h in
    let first : device_id_byte c ≡ true = ground arith in rw first (device_id_bytes-valid s rest)

validate_device_id-valid : (id : Bytes) → validate_device_id id ≡ valid tt → IsDeviceId id
unfolding validate_device_id
validate_device_id-valid id h =
    let (short, rest) = reject_if-passes _ device_id_length (device_id_bytes id) h in
    (ground arith, ground arith, device_id_bytes-valid id rest)

check_time-valid :
    (ext : External) (now ts : Time) (s : Bytes)
    → check_time ext now s ≡ valid ts
    → (ext.parse_time s ≡ some ts) × (ts ≤ now + 5 * minute) × (now ≤ ts + 30 * day)
unfolding check_time
check_time-valid ext now ts s h = ground arith

-- A value that is accepted: a finite number within the range of its metric.
pub record InRange (ext : External) (metric : Bytes) (v : Float64) : Type 0 where
  pub lo : Float64
  pub hi : Float64
  pub ranged : metric_range ext metric ≡ some (lo, hi)
  pub not_nan : ext.is_nan v ≡ false
  pub not_inf : ext.is_inf v ≡ false
  pub not_below : ext.lt_float v lo ≡ false
  pub not_above : ext.lt_float hi v ≡ false

in_range-valid :
    (ext : External) (metric : Bytes) (v : Float64) (r : Option (Float64 × Float64))
    → metric_range ext metric ≡ r
    → not (known r) ≡ false
    → ext.is_nan v || ext.is_inf v ≡ false
    → in_range ext v r ≡ valid tt
    → InRange ext metric v
in_range-valid ext metric v none e k f h = cc
in_range-valid ext metric v (some (lo, hi)) e k f h = record {
  lo = lo;
  hi = hi;
  ranged = e;
  not_nan = ground arith;
  not_inf = ground arith;
  not_below = ground arith;
  not_above = ground arith;
}

or_invalid-valid {ℓ} :
    {A : Type ℓ} (o : Option A) (e : ParseError) {a : A} → or_invalid o e ≡ valid a → o ≡ some a
or_invalid-valid none e h = cc
or_invalid-valid (some a) e h = cc

check_value-valid :
    (ext : External) (metric s : Bytes) (v : Float64)
    → check_value ext metric s ≡ valid v
    → (ext.parse_float (trim_space s) ≡ some v) × InRange ext metric v
unfolding check_value
check_value-valid ext metric s v h =
    let (k, h₁) =
      reject_if-passes (not (known (metric_range ext metric))) (unknown_metric metric) _ h in
    let (u, read, h₂) =
      >>=-eq-valid (or_invalid (ext.parse_float (trim_space s)) (non_numeric_value s)) _ h₁ in
    let (finite, h₃) = reject_if-passes (ext.is_nan u || ext.is_inf u) (non_numeric_value s) _ h₂ in
    let (done, inside, h₄) = >>=-eq-valid (in_range ext u (metric_range ext metric)) _ h₃ in
    let same : u ≡ v = cc in
    (
      or_invalid-valid (ext.parse_float (trim_space s)) (non_numeric_value s)
          (read ∙ ap valid same),
      in_range-valid ext metric v (metric_range ext metric) refl k (rw (← same) finite)
          (rw (← same) inside),
    )

abbrev value_of {ℓ} : {A : Type ℓ} → A → Checked A → A
value_of a (valid b) = b
value_of a (invalid e) = a

valid_inj {ℓ} : {A : Type ℓ} {a b : A} → valid a ≡ valid b → a ≡ b
valid_inj {a} h = ap (value_of a) h

abbrev Fields : Type 0
Fields = Bytes × Bytes × Bytes × Bytes × Bytes

five_fields-valid :
    (fs : List Bytes) {w : Fields}
    → five_fields fs ≡ valid w
    → fs ≡ w.0 ∷ w.1 ∷ w.2 ∷ w.3 ∷ w.4 ∷ []
five_fields-valid [] h = cc
five_fields-valid (_ ∷ []) h = cc
five_fields-valid (_ ∷ _ ∷ []) h = cc
five_fields-valid (_ ∷ _ ∷ _ ∷ []) h = cc
five_fields-valid (_ ∷ _ ∷ _ ∷ _ ∷ []) h = cc
five_fields-valid (_ ∷ _ ∷ _ ∷ _ ∷ _ ∷ []) h =
    ap (λ (w : Fields). w.0 ∷ w.1 ∷ w.2 ∷ w.3 ∷ w.4 ∷ []) (valid_inj h)
five_fields-valid (_ ∷ _ ∷ _ ∷ _ ∷ _ ∷ _ ∷ _) h = cc

-- What an accepted body and the checksum given with it satisfy.
pub record AcceptedBody (ext : External) (now : Time) (body given : Bytes) (t : Telemetry)
    : Type 0 where
  pub time_field : Bytes
  pub metric_field : Bytes
  pub value_field : Bytes
  pub unit_field : Bytes
  pub fields :
      split bar body ≡ t.device_id ∷ time_field ∷ metric_field ∷ value_field ∷ unit_field ∷ []
  pub device : IsDeviceId t.device_id
  pub time : ext.parse_time time_field ≡ some t.ts
  pub not_ahead : t.ts ≤ now + 5 * minute
  pub not_old : now ≤ t.ts + 30 * day
  pub metric : t.metric ≡ trim_space metric_field
  pub value : ext.parse_float (trim_space value_field) ≡ some t.value
  pub range : InRange ext t.metric t.value
  pub unit : t.unit ≡ trim_space unit_field
  pub checksum : t.checksum ≡ checksum_hex body
  pub matches : map to_upper given ≡ t.checksum

parse_body-valid :
    (ext : External) (now : Time) (body given : Bytes) (t : Telemetry)
    → parse_body ext now body given ≡ valid t
    → AcceptedBody ext now body given t
unfolding parse_body
parse_body-valid ext now body given t h =
    let (w, read, h₁) = >>=-eq-valid (five_fields (split bar body)) _ h in
    let (u, device, h₂) = >>=-eq-valid (validate_device_id w.0) _ h₁ in
    let (ts, time, h₃) = >>=-eq-valid (check_time ext now w.1) _ h₂ in
    let (v, value, h₄) = >>=-eq-valid (check_value ext (trim_space w.2) w.3) _ h₃ in
    let (sum, h₅) =
      reject_if-passes (not (eqb (map to_upper given) (checksum_hex body)))
        (checksum_mismatch given (checksum_hex body)) _ h₄ in
    let (parsed_time, ahead, old) = check_time-valid ext now ts w.1 time in
    let (number, range) = check_value-valid ext (trim_space w.2) w.3 v value in
    let equal : eqb (map to_upper given) (checksum_hex body) ≡ true = ground arith in
    subst (AcceptedBody ext now body given) (valid_inj h₅) (record {
      time_field = w.1;
      metric_field = w.2;
      value_field = w.3;
      unit_field = w.4;
      fields = five_fields-valid (split bar body) read;
      device = validate_device_id-valid w.0 device;
      time = parsed_time;
      not_ahead = ahead;
      not_old = old;
      metric = refl;
      value = number;
      range = range;
      unit = refl;
      checksum = refl;
      matches = eqb→eq (map to_upper given) (checksum_hex body) equal;
    })

-- What `ParseMessage` has checked of an accepted message, which it cuts at its last bar.
pub record Accepted (ext : External) (now : Time) (raw : Bytes) (t : Telemetry) : Type 0 where
  pub body : Bytes
  pub given : Bytes
  pub cut : raw ≡ body ++ bar ∷ given
  pub last : last_index bar given ≡ none
  pub short : length raw ≤ 4096
  pub hex : is_hex_string (map to_upper given) ≡ true
  pub checked : AcceptedBody ext now body given t

checksum_after-valid :
    (raw : Bytes) (i : ℕ) (w : Bytes × Bytes)
    → checksum_after raw (some i) ≡ valid w
    → ((take i raw, drop (i + 1) raw) ≡ w) × (is_hex_string (map to_upper w.1) ≡ true)
checksum_after-valid raw i w h =
    let (some_, h₁) = reject_if-passes (eqb (drop (i + 1) raw) []) empty_checksum _ h in
    let (hex, h₂) =
      reject_if-passes (not (is_hex_string (map to_upper (drop (i + 1) raw))))
        invalid_checksum_format _ h₁ in
    let digits : is_hex_string (map to_upper (drop (i + 1) raw)) ≡ true = ground arith in
    let same = valid_inj h₂ in
    (same, subst (λ (v : Bytes × Bytes). is_hex_string (map to_upper v.1) ≡ true) same digits)

pub split_checksum-valid :
    (raw : Bytes) (w : Bytes × Bytes)
    → split_checksum raw ≡ valid w
    → (raw ≡ w.0 ++ bar ∷ w.1)
      × (last_index bar w.1 ≡ none)
      × (is_hex_string (map to_upper w.1) ≡ true)
unfolding split_checksum
split_checksum-valid raw w h = elim (Option-cases (last_index bar raw)) [
  | inl e ↦ cc (ap (checksum_after raw) e)
  | inr (i, e) ↦
      let (same, hex) = checksum_after-valid raw i w (sym (ap (checksum_after raw) e) ∙ h) in
      let (cut, last) = last_index_cut bar raw i e in
      (
        subst (λ (v : Bytes × Bytes). raw ≡ v.0 ++ bar ∷ v.1) same cut,
        subst (λ (v : Bytes × Bytes). last_index bar v.1 ≡ none) same last,
        hex,
      )
]

-- A message that `ParseMessage` accepts is a body of five fields and a checksum of the body, cut at
-- the last bar: its device id is well formed, its time is at most five minutes ahead and thirty
-- days back, and its value is a finite number within the range of its metric, which is known.
pub parse_message-Accepted :
    (ext : External) (now : Time) (raw : Bytes) (t : Telemetry)
    → parse_message ext raw now ≡ valid t
    → Accepted ext now raw t
unfolding parse_message
parse_message-Accepted ext now raw t h =
    let (full, h₁) = reject_if-passes (eqb (trim_space raw) []) empty_raw_text _ h in
    let (short, h₂) = reject_if-passes (ltb 4096 (length raw)) raw_text_too_long _ h₁ in
    let (w, split_, h₃) = >>=-eq-valid (split_checksum raw) _ h₂ in
    let (cut, last, hex) = split_checksum-valid raw w split_ in
    record {
      body = w.0;
      given = w.1;
      cut = cut;
      last = last;
      short = ground arith;
      hex = hex;
      checked = parse_body-valid ext now w.0 w.1 t h₃;
    }
