-- ===== src/Service/Effect.antt =====
-- internal/service/service.go: what the transaction of `IngestTelemetry` writes when it commits.
use device_telemetry_ro.Prelude.{
  keep, find, any, All, ℕ, ◌≡◌, refl, sym, ap, subst, ◌∙◌, Bool, true, false, not, none, some, List,
  [], ◌∷◌, ◌++◌, map,
}
use device_telemetry_ro.Prelude.Bytes.{Bytes, eqb}
use device_telemetry_ro.Domain.{
  Time, RawMessage, Event, RouteRule, delivery_pending, DeliveryRecord,
}
use device_telemetry_ro.Domain.Errors.{Error, ok}
use device_telemetry_ro.External.{External}
use device_telemetry_ro.Router.{sort_rules, match_rules, topics}
use device_telemetry_ro.Parser.{Telemetry}
use device_telemetry_ro.Db.{Tables, World, pure, throw}
use device_telemetry_ro.Db.Returns.{
  outcome-inj, pure-returns, query-returns, bind-returns, update-returns, insert-returns,
}
use device_telemetry_ro.Store.{
  duplicate_key, foreign_key, unless, has_device, has_event, has_rule, change_where,
}
use device_telemetry_ro.Store.Devices.{
  touch_seen, raw_row, insert_raw, find_by_dedup_key, event_row, create_event,
}
use device_telemetry_ro.Store.Rules.{is_live, list_rules}
use device_telemetry_ro.Store.Deliveries.{delivery_row, create_delivery}
use device_telemetry_ro.Service.{require}
use device_telemetry_ro.Service.Ingest.{
  TelemetryResult, is_known, deliver, matching, event_of, raw_of, record_telemetry,
}

-- A delivery that waits for its first dispatch.
unfoldable pub IsNew : Time → Bytes → DeliveryRecord → Type 0
IsNew now event_id d =
    (d.event_id ≡ event_id)
    × (d.status ≡ delivery_pending)
    × (d.attempts ≡ 0)
    × (d.next_retry_at ≡ some now)

-- An insert that two constraints admit gives the tables with the row.
admitted : (b c : Bool) (e f : Error) (s t : Tables) → unless b e (unless c f (ok s)) ≡ ok t → s ≡ t
admitted true c e f s t h = cc
admitted false true e f s t h = cc
admitted false false e f s t h = cc

event_row-ok :
    (e : Event) (id : ℕ) (t t' : Tables)
    → event_row e id t ≡ ok t'
    → record t { events = t.events ++ record e { id = id } ∷ [] } ≡ t'
unfolding event_row
event_row-ok e id t t' h =
    admitted (has_event e.event_id t) (not (has_device e.device_id t)) duplicate_key foreign_key _
      t' h

raw_row-ok :
    (m : RawMessage) (id : ℕ) (t t' : Tables)
    → raw_row m id t ≡ ok t'
    → record t { raws = t.raws ++ record m { id = id } ∷ [] } ≡ t'
unfolding raw_row
raw_row-ok m id t t' h =
    admitted (any (λ r. eqb r.dedup_key m.dedup_key) t.raws) (not (has_device m.device_id t))
      duplicate_key foreign_key _ t' h

delivery_row-ok :
    (d : DeliveryRecord) (id : ℕ) (t t' : Tables)
    → delivery_row d id t ≡ ok t'
    → record t { deliveries = t.deliveries ++ record d { id = id } ∷ [] } ≡ t'
unfolding delivery_row
delivery_row-ok d id t t' h =
    admitted (not (has_event d.event_id t)) (not (has_rule d.rule_id t)) foreign_key foreign_key _
      t' h

append_assoc : (xs ys zs : List DeliveryRecord) → (xs ++ ys) ++ zs ≡ xs ++ (ys ++ zs)
append_assoc [] ys zs = refl
append_assoc (x ∷ xs) ys zs = ap (λ l. x ∷ l) (append_assoc xs ys zs)

append-nil : (xs : List DeliveryRecord) → xs ≡ xs ++ []
append-nil [] = refl
append-nil (x ∷ xs) = ap (λ l. x ∷ l) (append-nil xs)

-- The deliveries that the loop adds to a table: one for each rule, in order.
unfoldable pub Delivered : Time → Bytes → List RouteRule → Tables → Tables → Type 0
Delivered now event_id rules before_ after =
    (new : List DeliveryRecord) × (record before_ { deliveries = before_.deliveries ++ new }
      ≡ after)
    × (map (λ d. d.rule_id) new ≡ map (λ r. r.rule_id) rules)
    × (map (λ d. d.topic) new ≡ map (λ r. r.topic) rules)
    × All (IsNew now event_id) new

abbrev pub pending_row : Time → Bytes → RouteRule → ℕ → DeliveryRecord
pending_row now event_id r n = record {
  id = n;
  event_id = event_id;
  rule_id = r.rule_id;
  topic = r.topic;
  status = delivery_pending;
  attempts = 0;
  last_error = [];
  next_retry_at = some now;
  dispatched_at = none;
}

-- One more delivery before those that follow.
pub Delivered-cons :
    (now : Time) (event_id : Bytes) (r : RouteRule) (rs : List RouteRule) (v u : World) (t : Tables)
    (id : ℕ)
    → create_delivery (pending_row now event_id r 0) v ≡ (ok id, u)
    → Delivered now event_id rs u.tables t
    → Delivered now event_id (r ∷ rs) v.tables t
unfolding Delivered IsNew create_delivery
Delivered-cons now event_id r rs v u t id ran (new, added, ids, tops, fresh) =
    let (n, row) = insert-returns _ _ v ran in
    let here = delivery_row-ok _ n v.tables u.tables row in
    (
      pending_row now event_id r n ∷ new,
      ap (λ l. record v.tables { deliveries = l })
            (sym (append_assoc v.tables.deliveries (pending_row now event_id r n ∷ []) new))
          ∙ ap (λ (s : Tables). record s { deliveries = s.deliveries ++ new }) here
          ∙ added,
      ap (λ l. r.rule_id ∷ l) ids,
      ap (λ l. r.topic ∷ l) tops,
      ((refl, refl, refl, refl), fresh),
    )

pub Delivered-nil :
    (now : Time) (event_id : Bytes) (v w : World)
    → v.tables ≡ w.tables
    → Delivered now event_id [] v.tables w.tables
unfolding Delivered
Delivered-nil now event_id v w kept = (
  [],
  ap (λ l. record v.tables { deliveries = l }) (sym (append-nil v.tables.deliveries)) ∙ kept,
  refl,
  refl,
  tt,
)

deliver-Delivered :
    (now : Time) (event_id : Bytes) (rules : List RouteRule) (v w : World) (x : Unit {0})
    → deliver now event_id rules (map (λ r. r.topic) rules) v ≡ (ok x, w)
    → Delivered now event_id rules v.tables w.tables
unfolding deliver
deliver-Delivered now event_id [] v w x h = Delivered-nil now event_id v w (pure-returns v h).1
deliver-Delivered now event_id (r ∷ rs) v w x h =
    let (id, u, ran, rest) =
      bind-returns _ (λ _. deliver now event_id rs (map (λ q. q.topic) rs)) v h in
    Delivered-cons now event_id r rs v u w.tables id ran
      (deliver-Delivered now event_id rs u w x rest)

not-true : (b : Bool) → not b ≡ true → b ≡ false
not-true true h = cc
not-true false h = refl

pub require-true :
    (b : Bool) (e : Error) (v w : World) (x : Unit {0})
    → require b e v ≡ (ok x, w)
    → (b ≡ true) × (v.tables ≡ w.tables)
unfolding pure throw
require-true true e v w x h = (refl, (outcome-inj h).1)
require-true false e v w x h = let q = (outcome-inj h).0 in cc

abbrev pub seen : Bytes → Time → Tables → Tables
seen id at t = record t {
  devices =
      change_where (λ d. eqb d.device_id id)
        (λ d. record d { last_seen_at = some at; updated_at = at }) t.devices;
}

module _ (ext : External) (now : Time) (fresh key raw_text : Bytes) (tel : Telemetry) where
  abbrev pub event : Event
  event = event_of ext tel now fresh key

  abbrev pub raw : RawMessage
  raw = raw_of ext tel raw_text now fresh key

  -- the tables after the event, the raw message and the device are written
  abbrev pub stored : ℕ → ℕ → Tables → Tables
  stored m n t = seen tel.device_id now (record t {
    events = t.events ++ record event { id = m } ∷ [];
    raws = t.raws ++ record raw { id = n } ∷ [];
  })

  abbrev pub matched : Tables → List RouteRule
  matched t = match_rules ext event (sort_rules (keep is_live t.rules))

  matching-matched :
      (v w : World) (ms : List RouteRule)
      → matching ext event v ≡ (ok ms, w)
      → (matched v.tables ≡ ms) × (v.tables ≡ w.tables)
  unfolding matching list_rules
  matching-matched v w ms h =
      let (rules, u, q, rest) = bind-returns _ _ v h in
      let (listed, e) = query-returns _ v q in
      let (same, e') = pure-returns u rest in (ap (match_rules ext event) listed ∙ same, e ∙ e')

  pub record_telemetry-Delivered :
      (v w : World) (r : TelemetryResult)
      → record_telemetry ext now fresh key raw_text tel v ≡ (ok r, w)
      → (m n : ℕ) × Delivered now fresh (matched v.tables) (stored m n v.tables) w.tables
        × (is_known (find (λ x. eqb x.dedup_key key) v.tables.raws) ≡ false)
        × (r.event_id ≡ fresh)
        × (r.duplicate ≡ false)
        × (r.matched_rules ≡ map (λ x. x.rule_id) (matched v.tables))
        × (r.topics ≡ map (λ x. x.topic) (matched v.tables))
  unfolding record_telemetry find_by_dedup_key create_event insert_raw touch_seen topics
  record_telemetry-Delivered v w r h =
      let (existing, u1, q1, h1) = bind-returns _ _ v h in
      let (x2, u2, q2, h2) = bind-returns _ _ u1 h1 in
      let (x3, u3, q3, h3) = bind-returns _ _ u2 h2 in
      let (x4, u4, q4, h4) = bind-returns _ _ u3 h3 in
      let (x5, u5, q5, h5) = bind-returns _ _ u4 h4 in
      let (ms, u6, q6, h6) = bind-returns _ _ u5 h5 in
      let (x7, u7, q7, h7) = bind-returns _ _ u6 h6 in
      let (result, kept) = pure-returns u7 h7 in
      let (looked, e1) = query-returns _ v q1 in
      let (unknown, e2) = require-true _ _ u1 u2 x2 q2 in
      let (m, row) = insert-returns _ _ u2 q3 in
      let (n, raw_inserted) = insert-returns _ _ u3 q4 in
      let (listed, e6) = matching-matched u5 u6 ms q6 in
      let e5 : stored m n v.tables ≡ u5.tables =
        ap (stored m n) (e1 ∙ e2)
        ∙ ap
            (λ (t : Tables).
              seen tel.device_id now (record t { raws = t.raws ++ record raw { id = n } ∷ [] }))
            (event_row-ok event m u2.tables u3.tables row)
        ∙ ap (seen tel.device_id now) (raw_row-ok raw n u3.tables u4.tables raw_inserted)
        ∙ update-returns _ u4 q5 in
      let same : ms ≡ matched v.tables = sym listed ∙ ap matched (sym e5) in
      let routed = deliver-Delivered now fresh ms u6 u7 x7 q7 in
      (
        m,
        n,
        subst (λ t. Delivered now fresh (matched v.tables) (stored m n v.tables) t) kept
            (subst (λ l. Delivered now fresh l (stored m n v.tables) u7.tables) same
              (subst (λ t. Delivered now fresh ms t u7.tables) (sym (e5 ∙ e6)) routed)),
        ap is_known looked ∙ not-true _ unknown,
        sym (ap (λ (z : TelemetryResult). z.event_id) result),
        sym (ap (λ (z : TelemetryResult). z.duplicate) result),
        sym (ap (λ (z : TelemetryResult). z.matched_rules) result) ∙ ap (map (λ x. x.rule_id)) same,
        sym (ap (λ (z : TelemetryResult). z.topics) result) ∙ ap (map (λ x. x.topic)) same,
      )
