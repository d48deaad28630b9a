-- ===== src/Dedup.antt =====
-- internal/dedup/dedup.go: the key of a measurement, and the window in which it is a duplicate.
use device_telemetry_ro.Prelude.{take, Bool, ◌∷◌, ◌++◌}
use device_telemetry_ro.Prelude.Int.{ℤ, sub_ℕ, leb_ℤ, saturate64}
use device_telemetry_ro.Prelude.Bytes.{Bytes}
use device_telemetry_ro.Domain.{Time, Float64}
use device_telemetry_ro.External.{External}
use device_telemetry_ro.Parser.{bar}

module _ (ext : External) where
  -- what `Key` hashes: device_id|ts|metric|value|unit
  abbrev pub key_text : Bytes → Time → Bytes → Float64 → Bytes → Bytes
  key_text device_id ts metric value unit =
      device_id
      ++ bar
        ∷ (ext.unix_nano ts ++ bar ∷ (metric ++ bar ∷ (ext.format_float_g value ++ bar ∷ unit)))

  -- `Key`
  unfoldable pub dedup_key : Bytes → Time → Bytes → Float64 → Bytes → Bytes
  dedup_key device_id ts metric value unit =
      take 32 (ext.sha256_hex (key_text device_id ts metric value unit))

-- `WithinWindow`, with the saturating `Sub` of instants
unfoldable pub within_window : Time → Time → ℤ → Bool
within_window received_at now window = leb_ℤ (saturate64 (sub_ℕ now received_at)) window
