-- ===== src/Parser/Printable.antt =====
-- Payloads that can be written as a message, and what each check of `ParseMessage` does on them.
use mathlib.Core.List.{append_assoc}
use device_telemetry_ro.Prelude.{
  ◌==◌, Bool-cases, &&-eq-true, length, all, ℕ, ◌+◌, ◌*◌, ◌/◌, ◌%◌, ◌≤◌, ◌<◌, ◌≡◌, refl, sym, ap,
  subst, ◌∙◌, inl, inr, true, false, some, [], ◌∷◌, ◌++◌, map, arith,
}
use device_telemetry_ro.Prelude.Bytes.{Bytes, codes, eqb, eqb→eq}
use device_telemetry_ro.Domain.{Time, Float64}
use device_telemetry_ro.External.{External}
use device_telemetry_ro.Text.{trim_space, to_upper, is_hex, is_hex_string, hex_digit, hex4}
use device_telemetry_ro.Text.Trim.{Solid, trim_space-Solid}
use device_telemetry_ro.Text.Cut.{
  lacks, last_index_of_lacks, last_index-append, take_front, drop_front,
}
use device_telemetry_ro.Parser.{
  Telemetry, valid, bar, minute, day, metric_range, crc_from, checksum_hex, device_id_byte,
  device_id_bytes, validate_device_id, checksum_after, split_checksum, check_time, check_value,
  build_message,
}
use device_telemetry_ro.Parser.Accept.{IsDeviceId, InRange}

-- What the payload and the formatting of the standard library must satisfy: the device id, the time,
-- the value and the length are such as `ParseMessage` admits; formatting and parsing a time and a
-- value are inverse to each other; and a bar or outer white space stands in no field.
pub record Printable (ext : External) (now : Time) (t : Telemetry) : Type 0 where
  pub device : IsDeviceId t.device_id
  pub time : ext.parse_time (ext.format_time t.ts) ≡ some t.ts
  pub time_lacks : lacks bar (ext.format_time t.ts) ≡ true
  pub not_ahead : t.ts ≤ now + 5 * minute
  pub not_old : now ≤ t.ts + 30 * day
  pub range : InRange ext t.metric t.value
  pub value : ext.parse_float (ext.format_float_f t.value) ≡ some t.value
  pub value_trimmed : trim_space (ext.format_float_f t.value) ≡ ext.format_float_f t.value
  pub value_lacks : lacks bar (ext.format_float_f t.value) ≡ true
  pub unit_trimmed : trim_space t.unit ≡ t.unit
  pub unit_lacks : lacks bar t.unit ≡ true
  pub short : length (build_message ext t.device_id t.ts t.metric t.value t.unit) ≤ 4096

pub hex_digit_facts :
    (d : ℕ)
    → d < 16
    → (to_upper (hex_digit d) ≡ hex_digit d)
      × (is_hex (hex_digit d) ≡ true)
      × ((hex_digit d == bar) ≡ false)
      × Solid (hex_digit d)
unfolding to_upper hex_digit
hex_digit_facts d h = ground arith

pub hex4_upper : (n : ℕ) → map to_upper (hex4 n) ≡ hex4 n
unfolding hex4
hex4_upper n = cc (
  (hex_digit_facts (n / 4096 % 16) (omega arith)).0,
  (hex_digit_facts (n / 256 % 16) (omega arith)).0,
  (hex_digit_facts (n / 16 % 16) (omega arith)).0,
  (hex_digit_facts (n % 16) (omega arith)).0,
)

pub hex4_hex : (n : ℕ) → is_hex_string (hex4 n) ≡ true
unfolding hex4 is_hex_string
hex4_hex n = rw (hex_digit_facts (n / 4096 % 16) (omega arith)).1 (
    rw (hex_digit_facts (n / 256 % 16) (omega arith)).1 (
      rw (hex_digit_facts (n / 16 % 16) (omega arith)).1
        (rw (hex_digit_facts (n % 16) (omega arith)).1)))

pub hex4-lacks : (n : ℕ) → lacks bar (hex4 n) ≡ true
unfolding hex4
hex4-lacks n = rw (hex_digit_facts (n / 4096 % 16) (omega arith)).2 (
    rw (hex_digit_facts (n / 256 % 16) (omega arith)).2 (
      rw (hex_digit_facts (n / 16 % 16) (omega arith)).2
        (rw (hex_digit_facts (n % 16) (omega arith)).2)))

pub hex4_full : (n : ℕ) → eqb (hex4 n) [] ≡ false
unfolding hex4 eqb
hex4_full n = refl

-- A message is cut into its body and its checksum.
pub split_checksum-build :
    (body : Bytes)
    → split_checksum (body ++ bar ∷ checksum_hex body) ≡ valid (body, checksum_hex body)
unfolding split_checksum checksum_hex
split_checksum-build body =
    let n : ℕ = crc_from 0xffff body in
    ap (checksum_after (body ++ bar ∷ hex4 n))
      (last_index-append bar body (hex4 n) (last_index_of_lacks bar (hex4 n) (hex4-lacks n)))
    ∙ rw (drop_front body bar (hex4 n)) (
        rw (take_front body (bar ∷ hex4 n))
          (rw (hex4_upper n) (rw (hex4_hex n) (rw (hex4_full n)))))

-- A message is not blank: it begins and ends with a byte that is no white space.
pub trim_space-build :
    (c : ℕ) (s : Bytes) (n : ℕ)
    → Solid c
    → trim_space (c ∷ (s ++ bar ∷ hex4 n)) ≡ c ∷ (s ++ bar ∷ hex4 n)
unfolding hex4
trim_space-build c s n h =
    let front : Bytes =
      bar ∷ hex_digit (n / 4096 % 16) ∷ hex_digit (n / 256 % 16) ∷ hex_digit (n / 16 % 16) ∷ [] in
    let d : ℕ = hex_digit (n % 16) in
    subst (λ (x : Bytes). trim_space (c ∷ x) ≡ c ∷ x) (append_assoc s front (d ∷ []))
      (trim_space-Solid c d (s ++ front) h (hex_digit_facts (n % 16) (omega arith)).3)

-- The six metrics hold no bar and no white space.
abbrev pub IsPlain : Bytes → Type 0
IsPlain m = (lacks bar m ≡ true) × (trim_space m ≡ m)

IsPlain-if : (m lit : Bytes) → IsPlain lit → (eqb m lit ≡ false → IsPlain m) → IsPlain m
IsPlain-if m lit h k = elim (Bool-cases (eqb m lit)) [
  | inl e ↦ subst IsPlain (sym (eqb→eq m lit e)) h
  | inr e ↦ k e
]

pub known_metric :
    (ext : External) (m : Bytes) {r : Float64 × Float64} → metric_range ext m ≡ some r → IsPlain m
unfolding metric_range trim_space
known_metric ext m h =
    IsPlain-if m (codes "temperature") (refl, refl)
      λ a.
        IsPlain-if m (codes "humidity") (refl, refl)
          λ b.
            IsPlain-if m (codes "pressure") (refl, refl)
              λ c.
                IsPlain-if m (codes "voltage") (refl, refl)
                  λ d.
                    IsPlain-if m (codes "current") (refl, refl)
                      λ e. IsPlain-if m (codes "wind_speed") (refl, refl) λ f. absurd (ground arith)

pub id_byte_facts : (c : ℕ) → device_id_byte c ≡ true → ((c == bar) ≡ false) × Solid c
id_byte_facts c h = ground arith

pub id_lacks-bar : (id : Bytes) → all device_id_byte id ≡ true → lacks bar id ≡ true
id_lacks-bar [] h = refl
id_lacks-bar (c ∷ id) h =
    let (here, rest) = &&-eq-true (device_id_byte c) (all device_id_byte id) h in
    rw (id_byte_facts c here).0 (id_lacks-bar id rest)

device_id_bytes-all : (id : Bytes) → all device_id_byte id ≡ true → device_id_bytes id ≡ valid tt
unfolding device_id_bytes
device_id_bytes-all [] h = refl
device_id_bytes-all (c ∷ id) h =
    let (here, rest) = &&-eq-true (device_id_byte c) (all device_id_byte id) h in
    rw here (device_id_bytes-all id rest)

pub validate_device_id-IsDeviceId : (id : Bytes) → IsDeviceId id → validate_device_id id ≡ valid tt
unfolding validate_device_id
validate_device_id-IsDeviceId id h = ground (arith, device_id_bytes-all id h.2)

pub check_value-InRange :
    (ext : External) (metric s : Bytes) (v : Float64)
    → ext.parse_float (trim_space s) ≡ some v
    → InRange ext metric v
    → check_value ext metric s ≡ valid v
unfolding check_value
check_value-InRange ext metric s v read r =
    rw r.ranged (rw read (rw r.not_nan (rw r.not_inf (rw r.not_below (rw r.not_above)))))

pub check_time-near :
    (ext : External) (now ts : Time) (s : Bytes)
    → ext.parse_time s ≡ some ts
    → ts ≤ now + 5 * minute
    → now ≤ ts + 30 * day
    → check_time ext now s ≡ valid ts
unfolding check_time
check_time-near ext now ts s read ahead old = ground arith
