-- ===== src/Service/Duplicate.antt =====
-- internal/service/service.go: a message whose key a parsed message has already, on a database that
-- answers.
use device_telemetry_ro.Prelude.{find, ◌≡◌, refl, ap, ◌∙◌, Bool, true, false, Option, some, []}
use device_telemetry_ro.Prelude.Int.{ℤ}
use device_telemetry_ro.Prelude.Bytes.{Bytes, eqb}
use device_telemetry_ro.Domain.{Time, Device, RawMessage}
use device_telemetry_ro.Domain.Errors.{err_duplicate}
use device_telemetry_ro.External.{External}
use device_telemetry_ro.Db.{
  ◌>>=◌, Tables, Sequences, World, world, pure, throw, catch, statement, query, in_tx,
}
use device_telemetry_ro.Parser.{Telemetry, ParseError, Checked, valid, parse_message}
use device_telemetry_ro.Db.Atomic.{IsReadOnly}
use device_telemetry_ro.Store.Devices.{get_device, find_by_dedup_key}
use device_telemetry_ro.Dedup.{dedup_key}
use device_telemetry_ro.Service.{plain, find_device}
use device_telemetry_ro.Service.Ingest.{
  is_active, is_parsed, duplicate_result, record_telemetry, earlier_result, after_error, is_recent,
  answer, ingest_parsed, parsed_or, ingest_telemetry,
}
use device_telemetry_ro.Service.Safe.{duplicate_result-IsReadOnly}

module _ (ext : External) (now : Time) (fresh raw_text : Bytes) (tel : Telemetry) (t : Tables)
    (s : Sequences) where
  abbrev here : World
  here = world t s []

  abbrev key : Bytes
  key = dedup_key ext tel.device_id tel.ts tel.metric tel.value tel.unit

  transaction-duplicate :
      (m : RawMessage)
      → find (λ x. eqb x.dedup_key key) t.raws ≡ some m
      → is_parsed m.status ≡ true
      → catch (in_tx (record_telemetry ext now fresh key raw_text tel)) (after_error ext key) here
        ≡ duplicate_result ext m here
  unfolding catch in_tx record_telemetry find_by_dedup_key query statement ◌>>=◌ pure throw
      after_error
  transaction-duplicate m e p =
      rw e
        (rw p (ap (λ (o : Option RawMessage). earlier_result ext o (plain err_duplicate) here) e))

  answer-duplicate :
      (m : RawMessage) (b : Bool)
      → find (λ x. eqb x.dedup_key key) t.raws ≡ some m
      → is_parsed m.status ≡ true
      → answer ext
          (catch (in_tx (record_telemetry ext now fresh key raw_text tel)) (after_error ext key))
          b
          (some m)
          here
        ≡ duplicate_result ext m here
  answer-duplicate m true e p = refl
  answer-duplicate m false e p = transaction-duplicate m e p

  ingest_parsed-duplicate :
      (window : ℤ) (d : Device) (m : RawMessage)
      → find (λ x. eqb x.device_id tel.device_id) t.devices ≡ some d
      → is_active d.status ≡ true
      → find (λ x. eqb x.dedup_key key) t.raws ≡ some m
      → is_parsed m.status ≡ true
      → ingest_parsed ext window now fresh raw_text tel here ≡ duplicate_result ext m here
  unfolding ingest_parsed find_device get_device find_by_dedup_key query statement ◌>>=◌ pure
  ingest_parsed-duplicate window d m there active e p =
      rw there (rw active (rw e (answer-duplicate m (is_recent ext now window (some m)) e p)))

-- A valid message of an active device, whose key a parsed message has already, is answered from that
-- message as `duplicateResult` does, and nothing is written: whatever the window and however old that
-- message is, on a database that answers.
pub ingest_telemetry-duplicate :
    (ext : External) (text_of : ParseError → Bytes) (window : ℤ) (now : Time)
    (fresh raw_text : Bytes) (tel : Telemetry) (d : Device) (m : RawMessage) (t : Tables)
    (s : Sequences)
    → parse_message ext raw_text now ≡ valid tel
    → find (λ x. eqb x.device_id tel.device_id) t.devices ≡ some d
    → is_active d.status ≡ true
    → find
        (λ x. eqb x.dedup_key (dedup_key ext tel.device_id tel.ts tel.metric tel.value tel.unit))
        t.raws
      ≡ some m
    → is_parsed m.status ≡ true
    → (ingest_telemetry ext text_of window now fresh raw_text (world t s [])
        ≡ duplicate_result ext m (world t s []))
      × ((ingest_telemetry ext text_of window now fresh raw_text (world t s [])).1.tables ≡ t)
unfolding ingest_telemetry IsReadOnly
ingest_telemetry-duplicate ext text_of window now fresh raw_text tel d m t s parsed_ there active e
      p =
    let same : ingest_telemetry ext text_of window now fresh raw_text (world t s [])
        ≡ duplicate_result ext m (world t s []) =
      ap
        (λ (c : Checked Telemetry).
          parsed_or ext text_of c (ingest_parsed ext window now fresh raw_text) (world t s []))
        parsed_
      ∙ ingest_parsed-duplicate ext now fresh raw_text tel t s window d m there active e p in
    (same, ap (λ z. z.1.tables) same ∙ duplicate_result-IsReadOnly ext m (world t s []))
