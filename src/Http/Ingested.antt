-- ===== src/Http/Ingested.antt =====
-- internal/httpapi/telemetry.go: what an answer to a message says of the tables.
use device_telemetry_ro.Prelude.{
  leb, ◌==◌, if◌then◌else◌, ℕ, ◌≡◌, refl, Bool, true, false, [], arith,
}
use device_telemetry_ro.Prelude.Int.{ℤ}
use device_telemetry_ro.Prelude.Bytes.{Bytes, eqb}
use device_telemetry_ro.Domain.Errors.{
  ApiError, err_invalid_field, err_checksum_mismatch, err_device_not_found, err_device_conflict,
  err_device_inactive, err_duplicate_message, err_rule_conflict, err_rule_not_found,
  err_unknown_metric, err_ts_out_of_range, err_event_not_found, err_duplicate, Error, api, driver,
  status_of, Result, ok, err,
}
use device_telemetry_ro.External.{External}
use device_telemetry_ro.Parser.{Telemetry, ParseError, valid, parse_message}
use device_telemetry_ro.Db.{Tables, World}
use device_telemetry_ro.Service.Ingest.{TelemetryResult, ingest_telemetry}
use device_telemetry_ro.Service.Recorded.{Recorded, ingest_telemetry-Recorded}
use device_telemetry_ro.Http.{Request, Response, error_status, write_error, render, respond}
use device_telemetry_ro.Http.Handlers.{
  Env, Decoded, decoded, undecodable, Codec, with_body, no_raw_text, telemetry_answer, ingest_body,
  handle_telemetry,
}

write_error-status : (e : Error) → leb 400 (write_error e).status ≡ true
unfolding write_error error_status status_of
write_error-status (driver text) = refl
write_error-status (api e d) = cases e
  where
    cases : (e : ApiError) → leb 400 (if status_of e == 200 then 500 else status_of e) ≡ true
    cases err_invalid_field = refl
    cases err_checksum_mismatch = refl
    cases err_device_not_found = refl
    cases err_device_conflict = refl
    cases err_device_inactive = refl
    cases err_duplicate_message = refl
    cases err_rule_conflict = refl
    cases err_rule_not_found = refl
    cases err_unknown_metric = refl
    cases err_ts_out_of_range = refl
    cases err_event_not_found = refl
    cases err_duplicate = refl

not_created : (e : Error) → (write_error e).status ≡ 201 → ⊥
not_created e h = let g = write_error-status e in absurd (low _ h g)
  where
    low : (n : ℕ) → n ≡ 201 → leb 400 n ≡ true → ⊥
    low n h g = ground arith

fresh-created : (b : Bool) → ◌≡◌ {A = ℕ} (if b then 200 else 201) 201 → b ≡ false
fresh-created true h = ground arith
fresh-created false h = refl

module _ (ext : External) (text_of : ParseError → Bytes) (window : ℤ) (codec : Codec)
    (env : Env) where
  -- What an answer of 201 to a message with the text `raw_text` stands for.
  abbrev Created : Bytes → Tables → Response × World → Type 0
  Created raw_text t (resp, w) =
      (res : TelemetryResult) × (tel : Telemetry) × (resp
        ≡ telemetry_answer ext text_of window codec env res)
      × (parse_message ext raw_text env.now ≡ valid tel)
      × Recorded ext env.now env.fresh_id raw_text tel res t w.tables

  rendered :
      (raw_text : Bytes) (v : World) (x : Result TelemetryResult × World)
      → ingest_telemetry ext text_of window env.now env.fresh_id raw_text v ≡ x
      → (render (telemetry_answer ext text_of window codec env) x).0.status ≡ 201
      → Created raw_text v.tables (render (telemetry_answer ext text_of window codec env) x)
  rendered raw_text v (ok res, w) e h =
      let (tel, p, q) =
        ingest_telemetry-Recorded ext env.now env.fresh_id raw_text text_of window v w res e
          (fresh-created res.duplicate h) in
      (res, tel, refl, p, q)
  rendered raw_text v (err x, w) e h = absurd (not_created x h)

  ingest_body-Created :
      (raw_text : Bytes) (w : World)
      → (ingest_body ext text_of window codec env raw_text w).0.status ≡ 201
      → Created raw_text w.tables (ingest_body ext text_of window codec env raw_text w)
  unfolding respond
  ingest_body-Created raw_text w h = chosen (eqb raw_text []) h
    where
      chosen :
          (b : Bool)
          → ((if b
                then no_raw_text ext text_of window codec env
                else respond
                    (ingest_telemetry ext text_of window env.now env.fresh_id raw_text)
                    (telemetry_answer ext text_of window codec env))
              w).0.status
            ≡ 201
          → Created raw_text w.tables (
              (if b
                  then no_raw_text ext text_of window codec env
                  else respond
                      (ingest_telemetry ext text_of window env.now env.fresh_id raw_text)
                      (telemetry_answer ext text_of window codec env))
                w)
      chosen true h = absurd (not_created _ h)
      chosen false h = rendered raw_text w _ refl h

  decoded-Created :
      (d : Decoded Bytes) (w : World)
      → (with_body d (ingest_body ext text_of window codec env) w).0.status ≡ 201
      → (raw_text : Bytes) × (d ≡ decoded raw_text)
        × Created raw_text w.tables (with_body d (ingest_body ext text_of window codec env) w)
  decoded-Created (decoded raw_text) w h = (raw_text, refl, ingest_body-Created raw_text w h)
  decoded-Created (undecodable text) w h = absurd (not_created _ h)

  -- An answer of 201 to a message, whichever statements the database fails: its body was decoded to a
  -- text that is a valid message of an active device with a key that no parsed message had; the event,
  -- the raw message, the last contact of the device and one new delivery for each rule that matches
  -- are stored, and nothing else is; and the answer shows the result of `IngestTelemetry`.
  pub handle_telemetry-Recorded :
      (r : Request) (w : World)
      → (handle_telemetry ext text_of window codec env r w).0.status ≡ 201
      → (raw_text : Bytes) × (res : TelemetryResult) × (tel : Telemetry) × (codec.decode_telemetry
            r.body
          ≡ decoded raw_text)
        × ((handle_telemetry ext text_of window codec env r w).0
            ≡ telemetry_answer ext text_of window codec env res)
        × (parse_message ext raw_text env.now ≡ valid tel)
        × Recorded ext env.now env.fresh_id raw_text tel res w.tables
            (handle_telemetry ext text_of window codec env r w).1.tables
  unfolding handle_telemetry
  handle_telemetry-Recorded r w h =
      let (raw_text, d, made) = decoded-Created (codec.decode_telemetry r.body) w h in
      let (res, tel, e, p, q) = made in (raw_text, res, tel, d, e, p, q)
