-- ===== src/Service/Replayed.antt =====
-- internal/service/replay.go: what `ReplayEvent` writes when it returns a result.
use device_telemetry_ro.Prelude.{
  if◌then◌else◌, length, keep, find, any, ◌≡◌, sym, ap, subst, ◌∙◌, Bool, true, false, not, some,
  List, [], ◌∷◌, map,
}
use device_telemetry_ro.Prelude.Bytes.{Bytes, eqb}
use device_telemetry_ro.Domain.{Time, Event, RouteRule, DeliveryRecord}
use device_telemetry_ro.Domain.Errors.{ok}
use device_telemetry_ro.External.{External}
use device_telemetry_ro.Db.{◌>>=◌, Tables, World, Exec, pure}
use device_telemetry_ro.Router.{sort_rules, match_rules}
use device_telemetry_ro.Db.Returns.{pure-returns, query-returns, bind-returns}
use device_telemetry_ro.Store.Devices.{get_event}
use device_telemetry_ro.Store.Rules.{is_live, list_rules}
use device_telemetry_ro.Store.Deliveries.{create_delivery, list_deliveries_by_event}
use device_telemetry_ro.Service.{find_event}
use device_telemetry_ro.Service.Ingest.{matching}
use device_telemetry_ro.Service.Replay.{ReplayResult, waiting_rules, deliver_missing, replay_event}
use device_telemetry_ro.Service.Effect.{Delivered, pending_row, Delivered-cons, Delivered-nil}
use device_telemetry_ro.Service.Recorded.{or_throw-returns}

-- The rules of a list that have no delivery waiting.
unfoldable pub missing : List Bytes → List RouteRule → List RouteRule
missing pending rules = keep (λ r. not (any (λ id. eqb id r.rule_id) pending)) rules

-- The deliveries that the loop adds to a table, one for each rule that has none waiting, in order, and
-- the ids that it returns.
unfoldable pub Replayed : Time → Bytes → List RouteRule → List Bytes → Tables → Tables → Type 0
Replayed now event_id rules created before_ after =
    (created ≡ map (λ r. r.rule_id) rules) × Delivered now event_id rules before_ after

-- One round of the loop, when what follows it is known.
deliver_missing-round :
    (now : Time) (event_id : Bytes) (r : RouteRule) (rs : List RouteRule) (rest : Exec (List Bytes))
    (waits : Bool) (v w : World) (created : List Bytes)
    → ((u u' : World) (cs : List Bytes)
        → rest u ≡ (ok cs, u')
        → Replayed now event_id rs cs u.tables u'.tables)
    → (if waits
          then rest
          else create_delivery (pending_row now event_id r 0) >>= λ _.
              rest >>= λ cs. pure (r.rule_id ∷ cs))
        v
      ≡ (ok created, w)
    → Replayed now event_id (if not waits then r ∷ rs else rs) created v.tables w.tables
unfolding Replayed
deliver_missing-round now event_id r rs rest true v w created k h = k v w created h
deliver_missing-round now event_id r rs rest false v w created k h =
    let (id, u, ran, h1) = bind-returns _ _ v h in
    let (cs, u', ran', h2) = bind-returns _ _ u h1 in
    let (same, kept) = pure-returns u' h2 in
    let (ids, routed) = k u u' cs ran' in
    (
      sym same ∙ ap (λ l. r.rule_id ∷ l) ids,
      subst (λ t. Delivered now event_id (r ∷ rs) v.tables t) kept
          (Delivered-cons now event_id r rs v u u'.tables id ran routed),
    )

deliver_missing-Replayed :
    (now : Time) (event_id : Bytes) (pending : List Bytes) (rules : List RouteRule) (v w : World)
    (created : List Bytes)
    → deliver_missing now event_id pending rules v ≡ (ok created, w)
    → Replayed now event_id (missing pending rules) created v.tables w.tables
unfolding deliver_missing missing Replayed
deliver_missing-Replayed now event_id pending [] v w created h =
    let (same, kept) = pure-returns v h in (sym same, Delivered-nil now event_id v w kept)
deliver_missing-Replayed now event_id pending (r ∷ rs) v w created h =
    deliver_missing-round now event_id r (missing pending rs)
      (deliver_missing now event_id pending rs) (any (λ id. eqb id r.rule_id) pending) v w created
      (deliver_missing-Replayed now event_id pending rs) h

abbrev matched_now : External → Event → Tables → List RouteRule
matched_now ext ev t = match_rules ext ev (sort_rules (keep is_live t.rules))

abbrev deliveries_of : Bytes → Tables → List DeliveryRecord
deliveries_of event_id t = keep (λ d. eqb d.event_id event_id) t.deliveries

matching-returns :
    (ext : External) (ev : Event) (v w : World) (ms : List RouteRule)
    → matching ext ev v ≡ (ok ms, w)
    → (matched_now ext ev v.tables ≡ ms) × (v.tables ≡ w.tables)
unfolding matching list_rules
matching-returns ext ev v w ms h =
    let (rules, u, q, rest) = bind-returns _ _ v h in
    let (listed, e) = query-returns _ v q in
    let (same, e') = pure-returns u rest in (ap (match_rules ext ev) listed ∙ same, e ∙ e')

find_event-returns :
    (event_id : Bytes) (v w : World) (ev : Event)
    → find_event event_id v ≡ (ok ev, w)
    → (find (λ e. eqb e.event_id event_id) v.tables.events ≡ some ev) × (v.tables ≡ w.tables)
unfolding find_event get_event
find_event-returns event_id v w ev h =
    let (o, u, q, rest) = bind-returns _ _ v h in
    let (looked, e) = query-returns _ v q in
    let (there, e') = or_throw-returns o _ u rest in (looked ∙ there, e ∙ e')

Replayed-along :
    (now : Time) (event_id : Bytes) {l l' : List RouteRule} {c c' : List Bytes} {t t' u u' : Tables}
    → l ≡ l'
    → c ≡ c'
    → t ≡ t'
    → u ≡ u'
    → Replayed now event_id l c t u
    → Replayed now event_id l' c' t' u'
Replayed-along now event_id {l' = l'} {c} {c' = c'} {t} {t' = t'} {u} pl pc pt pu h =
    subst (λ x. Replayed now event_id l' c' t' x) pu
      (subst (λ x. Replayed now event_id l' c' x u) pt
        (subst (λ x. Replayed now event_id l' x t u) pc
          (subst (λ x. Replayed now event_id x c t u) pl h)))

-- A result of `ReplayEvent`, whichever statements the database fails: the event is stored, the result
-- names the rules that match it now, in the router's order, and those of them without a pending or
-- failed delivery of the event; each of the latter has one new delivery, and nothing else is written.
pub replay_event-Replayed :
    (ext : External) (now : Time) (event_id : Bytes) (v w : World) (r : ReplayResult)
    → replay_event ext now event_id v ≡ (ok r, w)
    → (ev : Event) × (find (λ e. eqb e.event_id event_id) v.tables.events ≡ some ev)
      × (r.matched_rules
          ≡ map (λ x. x.rule_id) (match_rules ext ev (sort_rules (keep is_live v.tables.rules))))
      × (r.replayed_count ≡ length r.created_rules)
      × Replayed now event_id
          (missing
            (waiting_rules (keep (λ d. eqb d.event_id event_id) v.tables.deliveries))
            (match_rules ext ev (sort_rules (keep is_live v.tables.rules))))
          r.created_rules
          v.tables
          w.tables
unfolding replay_event list_deliveries_by_event
replay_event-Replayed ext now event_id v w r h =
    let (ev, u1, q1, h1) = bind-returns _ _ v h in
    let (ms, u2, q2, h2) = bind-returns _ _ u1 h1 in
    let (ds, u3, q3, h3) = bind-returns _ _ u2 h2 in
    let (cs, u4, q4, h4) = bind-returns _ _ u3 h3 in
    let (result, kept) = pure-returns u4 h4 in
    let (there, e1) = find_event-returns event_id v u1 ev q1 in
    let (listed, e2) = matching-returns ext ev u1 u2 ms q2 in
    let (looked, e3) = query-returns _ u2 q3 in
    let same : ms ≡ matched_now ext ev v.tables = sym listed ∙ ap (matched_now ext ev) (sym e1) in
    let had : ds ≡ deliveries_of event_id v.tables =
      sym looked ∙ ap (deliveries_of event_id) (sym (e1 ∙ e2)) in
    let created : cs ≡ r.created_rules = ap (λ (z : ReplayResult). z.created_rules) result in
    let done = deliver_missing-Replayed now event_id (waiting_rules ds) ms u3 u4 cs q4 in
    (
      ev,
      there,
      sym (ap (λ (z : ReplayResult). z.matched_rules) result) ∙ ap (map (λ x. x.rule_id)) same,
      sym (ap (λ (z : ReplayResult). z.replayed_count) result) ∙ ap length created,
      Replayed-along now event_id
          (ap (λ l. missing (waiting_rules l) ms) had
            ∙ ap (missing (waiting_rules (deliveries_of event_id v.tables))) same)
          created (sym (e1 ∙ e2 ∙ e3)) kept done,
    )
