-- ===== src/Parser/RoundTrip.antt =====
-- internal/parser/parser.go: `ParseMessage` on what `BuildMessage` writes.
use device_telemetry_ro.Prelude.{
  ltb, &&-eq-true, length, all, ℕ, ◌≤◌, ◌≡◌, refl, ap, ◌∙◌, false, [], ◌∷◌, ◌++◌, map, arith,
}
use device_telemetry_ro.Prelude.Bytes.{Bytes, eqb, eqb_refl}
use device_telemetry_ro.Domain.{Time}
use device_telemetry_ro.External.{External}
use device_telemetry_ro.Text.{trim_space, split, to_upper, hex4}
use device_telemetry_ro.Text.Cut.{split-lacks, split-append}
use device_telemetry_ro.Parser.{
  Telemetry, valid, bar, crc_from, checksum_hex, device_id_byte, parse_body, parse_message,
  message_body, build_message,
}
use device_telemetry_ro.Parser.Accept.{IsDeviceId}
use device_telemetry_ro.Parser.Printable.{
  Printable, hex4_upper, split_checksum-build, trim_space-build, known_metric, id_byte_facts,
  id_lacks-bar, validate_device_id-IsDeviceId, check_value-InRange, check_time-near,
}

checksum_upper : (body : Bytes) → map to_upper (checksum_hex body) ≡ checksum_hex body
unfolding checksum_hex
checksum_upper body = hex4_upper (crc_from 0xffff body)

-- A message that begins with a device id is not blank.
not_blank :
    (id r body : Bytes)
    → IsDeviceId id
    → body ≡ id ++ r
    → eqb (trim_space (body ++ bar ∷ checksum_hex body)) [] ≡ false
unfolding checksum_hex eqb
not_blank [] r body h e = absurd (omega (arith, h.0))
not_blank (c ∷ id) r body h e =
    let first = id_byte_facts c (&&-eq-true (device_id_byte c) (all device_id_byte id) h.2).0 in
    let n : ℕ = crc_from 0xffff body in
    ap (λ (x : Bytes). eqb (trim_space (x ++ bar ∷ hex4 n)) []) e
    ∙ ap (λ (x : Bytes). eqb x []) (trim_space-build c (id ++ r) n first.1)

short_enough : (n : ℕ) → n ≤ 4096 → ltb 4096 n ≡ false
short_enough n h = ground arith

module _ (ext : External) (now : Time) (t : Telemetry) (p : Printable ext now t) where
  abbrev body : Bytes
  body = message_body ext t.device_id t.ts t.metric t.value t.unit

  split_fields :
      split bar body
      ≡ t.device_id ∷ ext.format_time t.ts ∷ t.metric ∷ ext.format_float_f t.value ∷ t.unit ∷ []
  split_fields =
      let after_value : Bytes = t.unit in
      let after_metric : Bytes = ext.format_float_f t.value ++ bar ∷ after_value in
      let after_time : Bytes = t.metric ++ bar ∷ after_metric in
      let after_id : Bytes = ext.format_time t.ts ++ bar ∷ after_time in
      rw (split-append bar t.device_id after_id (id_lacks-bar t.device_id p.device.2)) (
        rw (split-append bar (ext.format_time t.ts) after_time p.time_lacks) (
          rw (split-append bar t.metric after_metric (known_metric ext t.metric p.range.ranged).0) (
            rw (split-append bar (ext.format_float_f t.value) after_value p.value_lacks)
              (rw (split-lacks bar t.unit p.unit_lacks)))))

  unfoldable pub written : Telemetry
  written = record t { checksum = checksum_hex body }

  parse_body-build : parse_body ext now body (checksum_hex body) ≡ valid written
  unfolding parse_body written
  parse_body-build = rw split_fields (
      rw (validate_device_id-IsDeviceId t.device_id p.device) (
        rw (check_time-near ext now t.ts (ext.format_time t.ts) p.time p.not_ahead p.not_old) (
          rw (known_metric ext t.metric p.range.ranged).1 (
            rw p.unit_trimmed (
              rw
                (check_value-InRange ext t.metric (ext.format_float_f t.value) t.value
                  (ap ext.parse_float p.value_trimmed ∙ p.value) p.range)
                (rw (checksum_upper body) (rw (eqb_refl (checksum_hex body)))))))))

  -- A payload that is printed with its checksum is parsed to itself, with that checksum, under the
  -- conditions of `Printable` on the payload and on the formatting of times and values.
  pub parse_message-build :
      parse_message ext (build_message ext t.device_id t.ts t.metric t.value t.unit) now
      ≡ valid written
  unfolding parse_message build_message
  parse_message-build =
      rw
        (not_blank t.device_id
          (bar
            ∷ (ext.format_time t.ts
                ++ bar ∷ (t.metric ++ bar ∷ (ext.format_float_f t.value ++ bar ∷ t.unit))))
          body p.device refl)
        (rw
          (short_enough (length (build_message ext t.device_id t.ts t.metric t.value t.unit))
            p.short)
          (rw (split_checksum-build body) parse_body-build))
