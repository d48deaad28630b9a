-- ===== src/Service/Recorded.antt =====
-- internal/service/service.go: what a message that `IngestTelemetry` accepts has done to the tables.
use device_telemetry_ro.Prelude.{
  if◌then◌else◌, find, ℕ, ◌≡◌, refl, sym, ap, subst, ◌∙◌, inl, inr, Bool, true, false, Option, none,
  some, List, [], map,
}
use device_telemetry_ro.Prelude.Int.{ℤ}
use device_telemetry_ro.Prelude.Bytes.{Bytes, eqb}
use device_telemetry_ro.Domain.{Time, Device, RawMessage, RouteRule}
use device_telemetry_ro.Domain.Errors.{Error, ok}
use device_telemetry_ro.External.{External}
use device_telemetry_ro.Db.{◌>>=◌, Tables, World, Exec, pure, throw, catch, in_tx}
use device_telemetry_ro.Parser.{Telemetry, ParseError, Checked, valid, invalid, parse_message}
use device_telemetry_ro.Db.Returns.{
  outcome-inj, pure-returns, query-returns, bind-returns, in_tx-returns, catch-returns,
}
use device_telemetry_ro.Store.Devices.{get_device, find_by_dedup_key}
use device_telemetry_ro.Dedup.{dedup_key}
use device_telemetry_ro.Service.{or_throw, find_device}
use device_telemetry_ro.Service.Ingest.{
  TelemetryResult, duplicate_of, is_active, is_err_duplicate, is_known, result_for,
  duplicate_result, record_telemetry, earlier_result, after_error, answer, ingest_parsed, parsed_or,
  ingest_telemetry,
}
use device_telemetry_ro.Service.Effect.{
  Delivered, require-true, stored, matched, record_telemetry-Delivered,
}

-- Every result of the run is that of a duplicate.
unfoldable OnlyDuplicates : Exec TelemetryResult → Type 0
OnlyDuplicates m = (v w : World) (r : TelemetryResult) → m v ≡ (ok r, w) → r.duplicate ≡ true

pure-OnlyDuplicates :
    (id : Bytes) (rs : List RouteRule) → OnlyDuplicates (pure (duplicate_of id rs))
unfolding OnlyDuplicates
pure-OnlyDuplicates id rs v w r h =
    sym (ap (λ (z : TelemetryResult). z.duplicate) (pure-returns v h).0)

throw-OnlyDuplicates : (e : Error) → OnlyDuplicates (throw e)
unfolding OnlyDuplicates throw
throw-OnlyDuplicates e v w r h = let q = (outcome-inj h).0 in cc

bind-OnlyDuplicates {ℓ} :
    {A : Type ℓ} (m : Exec A) (f : A → Exec TelemetryResult)
    → ((a : A) → OnlyDuplicates (f a))
    → OnlyDuplicates (m >>= f)
unfolding OnlyDuplicates
bind-OnlyDuplicates m f k v w r h = let (a, u, q, rest) = bind-returns m f v h in k a u w r rest

catch-OnlyDuplicates :
    (m : Exec TelemetryResult) (h : Error → Exec TelemetryResult)
    → OnlyDuplicates m
    → ((e : Error) → OnlyDuplicates (h e))
    → OnlyDuplicates (catch m h)
unfolding OnlyDuplicates
catch-OnlyDuplicates m h a k v w r q = elim (catch-returns m h v q) [
  | inl p ↦ a v w r p
  | inr (e, u, p) ↦ k e u w r p
]

if-OnlyDuplicates :
    (b : Bool) (m k : Exec TelemetryResult)
    → OnlyDuplicates m
    → OnlyDuplicates k
    → OnlyDuplicates (if b then m else k)
if-OnlyDuplicates true m k a c = a
if-OnlyDuplicates false m k a c = c

module _ (ext : External) where
  result_for-OnlyDuplicates : (o : Option Bytes) → OnlyDuplicates (result_for ext o)
  result_for-OnlyDuplicates none = pure-OnlyDuplicates [] []
  result_for-OnlyDuplicates (some id) =
      catch-OnlyDuplicates _ _
        (bind-OnlyDuplicates _ _ (λ found.
          bind-OnlyDuplicates _ _
            (λ ev. bind-OnlyDuplicates _ _ (λ matched. pure-OnlyDuplicates id matched))))
        (λ e. pure-OnlyDuplicates id [])

  duplicate_result-OnlyDuplicates : (m : RawMessage) → OnlyDuplicates (duplicate_result ext m)
  unfolding duplicate_result
  duplicate_result-OnlyDuplicates m = result_for-OnlyDuplicates m.event_id

  earlier_result-OnlyDuplicates :
      (o : Option RawMessage) (e : Error) → OnlyDuplicates (earlier_result ext o e)
  earlier_result-OnlyDuplicates none e = throw-OnlyDuplicates e
  earlier_result-OnlyDuplicates (some m) e = duplicate_result-OnlyDuplicates m

  after_error-OnlyDuplicates : (key : Bytes) (e : Error) → OnlyDuplicates (after_error ext key e)
  unfolding after_error
  after_error-OnlyDuplicates key e =
      if-OnlyDuplicates (is_err_duplicate e) _ _
        (bind-OnlyDuplicates _ _ (λ o. earlier_result-OnlyDuplicates o e)) (throw-OnlyDuplicates e)

  caught-fresh :
      (m : Exec TelemetryResult) (key : Bytes) (v w : World) (r : TelemetryResult)
      → catch m (after_error ext key) v ≡ (ok r, w)
      → r.duplicate ≡ false
      → m v ≡ (ok r, w)
  unfolding OnlyDuplicates
  caught-fresh m key v w r h d = elim (catch-returns m (after_error ext key) v h) [
    | inl p ↦ p
    | inr (e, u, p) ↦ let q = after_error-OnlyDuplicates key e u w r p in cc
  ]

  -- A result that is no duplicate is that of the transaction.
  answer-fresh :
      (m : Exec TelemetryResult) (key : Bytes) (b : Bool) (o : Option RawMessage) (v w : World)
      (r : TelemetryResult)
      → answer ext (catch m (after_error ext key)) b o v ≡ (ok r, w)
      → r.duplicate ≡ false
      → m v ≡ (ok r, w)
  unfolding OnlyDuplicates
  answer-fresh m key true (some x) v w r h d =
      let q = duplicate_result-OnlyDuplicates x v w r h in cc
  answer-fresh m key true none v w r h d = caught-fresh m key v w r h d
  answer-fresh m key false o v w r h d = caught-fresh m key v w r h d

pub or_throw-returns {ℓ} :
    {A : Type ℓ} (o : Option A) (e : Error) (v : World) {a : A} {w : World}
    → or_throw o e v ≡ (ok a, w)
    → (o ≡ some a) × (v.tables ≡ w.tables)
unfolding throw
or_throw-returns none e v h = let q = (outcome-inj h).0 in cc
or_throw-returns (some a) e v h = let (same, kept) = pure-returns v h in (ap some same, kept)

find_device-returns :
    (id : Bytes) (v : World) {d : Device} {w : World}
    → find_device id v ≡ (ok d, w)
    → (find (λ x. eqb x.device_id id) v.tables.devices ≡ some d) × (v.tables ≡ w.tables)
unfolding find_device get_device
find_device-returns id v h =
    let (o, u, q, rest) = bind-returns _ _ v h in
    let (looked, e) = query-returns _ v q in
    let (there, e') = or_throw-returns o _ u rest in (looked ∙ there, e ∙ e')

module _ (ext : External) (now : Time) (fresh raw_text : Bytes) where
  abbrev key_of : Telemetry → Bytes
  key_of tel = dedup_key ext tel.device_id tel.ts tel.metric tel.value tel.unit

  -- What an accepted message has done: its device is active and no parsed message had its key; the event, the raw
  -- message and the last contact of the device are stored, and one new delivery for each rule that
  -- matches, in the order of the router; and the result names these rules and topics.
  unfoldable pub Recorded : Telemetry → TelemetryResult → Tables → Tables → Type 0
  Recorded tel r before_ after =
      (d : Device) × (m n : ℕ) × (find (λ x. eqb x.device_id tel.device_id) before_.devices
        ≡ some d)
      × (is_active d.status ≡ true)
      × (is_known (find (λ x. eqb x.dedup_key (key_of tel)) before_.raws) ≡ false)
      × Delivered now fresh (matched ext now fresh (key_of tel) raw_text tel before_)
          (stored ext now fresh (key_of tel) raw_text tel m n before_) after
      × (r.event_id ≡ fresh)
      × (r.matched_rules
          ≡ map (λ x. x.rule_id) (matched ext now fresh (key_of tel) raw_text tel before_))
      × (r.topics ≡ map (λ x. x.topic) (matched ext now fresh (key_of tel) raw_text tel before_))

  transaction-Recorded :
      (tel : Telemetry) (d : Device) (v w : World) (r : TelemetryResult)
      → find (λ x. eqb x.device_id tel.device_id) v.tables.devices ≡ some d
      → is_active d.status ≡ true
      → in_tx (record_telemetry ext now fresh (key_of tel) raw_text tel) v ≡ (ok r, w)
      → Recorded tel r v.tables w.tables
  unfolding Recorded
  transaction-Recorded tel d v w r there active h =
      let (u, u', e, ran, e') = in_tx-returns _ v h in
      let (m, n, routed, unknown, id, dup, rules, tops) =
        record_telemetry-Delivered ext now fresh (key_of tel) raw_text tel u u' r ran in
      let found : find (λ x. eqb x.device_id tel.device_id) u.tables.devices ≡ some d =
        ap (λ (t : Tables). find (λ x. eqb x.device_id tel.device_id) t.devices) e ∙ there in
      subst (λ t. Recorded tel r v.tables t) e'
        (subst (λ t. Recorded tel r t u'.tables) e
          (d, m, n, found, active, unknown, routed, id, rules, tops))

  ingest_parsed-Recorded :
      (window : ℤ) (tel : Telemetry) (v w : World) (r : TelemetryResult)
      → ingest_parsed ext window now fresh raw_text tel v ≡ (ok r, w)
      → r.duplicate ≡ false
      → Recorded tel r v.tables w.tables
  unfolding ingest_parsed find_by_dedup_key
  ingest_parsed-Recorded window tel v w r h fresh_ =
      let (d, u1, q1, h1) = bind-returns _ _ v h in
      let (x2, u2, q2, h2) = bind-returns _ _ u1 h1 in
      let (existing, u3, q3, h3) = bind-returns _ _ u2 h2 in
      let (there, e1) = find_device-returns tel.device_id v q1 in
      let (active, e2) = require-true _ _ u1 u2 x2 q2 in
      let e : u3.tables ≡ v.tables = sym (e1 ∙ e2 ∙ (query-returns _ u2 q3).1) in
      subst (λ t. Recorded tel r t w.tables) e
        (transaction-Recorded tel d u3 w r
          (ap (λ (t : Tables). find (λ x. eqb x.device_id tel.device_id) t.devices) e ∙ there)
          active (answer-fresh ext _ (key_of tel) _ existing u3 w r h3 fresh_))

  parsed_or-Recorded :
      (text_of : ParseError → Bytes) (window : ℤ) (c : Checked Telemetry) (v w : World)
      (r : TelemetryResult)
      → parsed_or ext text_of c (ingest_parsed ext window now fresh raw_text) v ≡ (ok r, w)
      → r.duplicate ≡ false
      → (tel : Telemetry) × (c ≡ valid tel) × Recorded tel r v.tables w.tables
  unfolding throw
  parsed_or-Recorded text_of window (invalid e) v w r h fresh_ = let q = (outcome-inj h).0 in cc
  parsed_or-Recorded text_of window (valid tel) v w r h fresh_ =
      (tel, refl, ingest_parsed-Recorded window tel v w r h fresh_)

  -- A result of `IngestTelemetry` that is no duplicate, whichever statements the database fails: the
  -- message was valid, its device is active and no parsed message had its key; the transaction has stored the
  -- event, the raw message, the last contact of the device and one new delivery for each rule that
  -- matches, in the router's order, and nothing else; and the result names these rules and topics.
  pub ingest_telemetry-Recorded :
      (text_of : ParseError → Bytes) (window : ℤ) (v w : World) (r : TelemetryResult)
      → ingest_telemetry ext text_of window now fresh raw_text v ≡ (ok r, w)
      → r.duplicate ≡ false
      → (tel : Telemetry) × (parse_message ext raw_text now ≡ valid tel)
        × Recorded tel r v.tables w.tables
  unfolding ingest_telemetry
  ingest_telemetry-Recorded text_of window v w r h fresh_ =
      parsed_or-Recorded text_of window (parse_message ext raw_text now) v w r h fresh_
