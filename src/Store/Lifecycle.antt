-- ===== src/Store/Lifecycle.antt =====
-- internal/store: the life of a delivery, as its row shows it, under each statement.
use device_telemetry_ro.Prelude.{
  leb, ◌==◌, any, All, All-append, ℕ, suc, ◌≡◌, refl, subst, Bool, true, false, not, ◌&&◌, Option,
  none, some, [], ◌∷◌, ◌++◌, arith,
}
use device_telemetry_ro.Prelude.Bytes.{Bytes, eqb}
use device_telemetry_ro.Domain.{
  Time, DeviceStatus, Device, RawMessage, EventStatus, Event, RouteRule, RouteRuleChangeLog,
  DeliveryStatus, delivery_pending, delivery_dispatched, delivery_failed, delivery_dead,
  DeliveryRecord, ApiKeyAudit,
}
use device_telemetry_ro.Domain.Errors.{Error, Result, ok}
use device_telemetry_ro.Db.{Tables, update}
use device_telemetry_ro.Db.Keeps.{Keeps, update-Keeps, insert-Keeps}
use device_telemetry_ro.Db.Returns.{ok-inj}
use device_telemetry_ro.Store.{
  duplicate_key, foreign_key, unless, has_device, has_event, has_rule, All-change_where,
}
use device_telemetry_ro.Store.Devices.{
  insert_device, create_device, set_status, touch_seen, raw_row, insert_raw, event_row,
  create_event, update_event_status,
}
use device_telemetry_ro.Store.Rules.{
  rule_row, create_rule, update_rule, soft_delete, change_row, append_change,
}
use device_telemetry_ro.Store.Deliveries.{
  delivery_row, create_delivery, change_delivery, mark_delivered, mark_failed, mark_dead,
}
use device_telemetry_ro.Store.Audit.{audit_row, record_audit}

abbrev is_set : Option Time → Bool
is_set none = false
is_set (some t) = true

abbrev in_state : DeliveryStatus → ℕ → Option Time → Option Time → Bool
in_state delivery_pending attempts next at = attempts == 0 && is_set next
in_state delivery_failed attempts next at = is_set next
in_state delivery_dispatched attempts next at = leb 1 attempts && not (is_set next) && is_set at
in_state delivery_dead attempts next at = not (is_set next) && is_set at

-- A pending delivery has not been tried, and a dispatched one has. A delivery that waits has a time for
-- its next try. One that is dispatched or dead has none, and has the time when it was settled.
unfoldable pub in_order : DeliveryRecord → Bool
in_order d = in_state d.status d.attempts d.next_retry_at d.dispatched_at

-- Each row of the table of deliveries is in order.
unfoldable pub InOrder : Tables → Type 0
InOrder t = All (λ d. in_order d ≡ true) t.deliveries

unless-ok : (b : Bool) (e : Error) (u t : Tables) → unless b e (ok u) ≡ ok t → u ≡ t
unless-ok true e u t h = cc
unless-ok false e u t h = ok-inj h

unless_again :
    (b : Bool) (e : Error) (r : Result Tables) (t : Tables) → unless b e r ≡ ok t → r ≡ ok t
unless_again true e r t h = cc
unless_again false e r t h = h

-- An insert that leaves the deliveries alone.
same_deliveries : (u t : Tables) → u ≡ t → InOrder u → InOrder t
same_deliveries u t e i = subst InOrder e i

pub create_device-Keeps : (d : Device) → Keeps InOrder (create_device d)
unfolding create_device insert_device InOrder
create_device-Keeps d =
    insert-Keeps InOrder _ _ (λ id t t' i e. same_deliveries _ t' (unless-ok _ _ _ t' e) i)

pub insert_raw-Keeps : (m : RawMessage) → Keeps InOrder (insert_raw m)
unfolding insert_raw raw_row InOrder
insert_raw-Keeps m = insert-Keeps InOrder _ _ (λ id t t' i e.
    same_deliveries _ t'
      (unless-ok (not (has_device m.device_id t)) foreign_key _ t'
        (unless_again (any (λ r. eqb r.dedup_key m.dedup_key) t.raws) duplicate_key _ t' e))
      i)

pub create_event-Keeps : (ev : Event) → Keeps InOrder (create_event ev)
unfolding create_event event_row InOrder
create_event-Keeps ev = insert-Keeps InOrder _ _ (λ id t t' i e.
    same_deliveries _ t'
      (unless-ok (not (has_device ev.device_id t)) foreign_key _ t'
        (unless_again (has_event ev.event_id t) duplicate_key _ t' e))
      i)

pub create_rule-Keeps : (r : RouteRule) → Keeps InOrder (create_rule r)
unfolding create_rule rule_row InOrder
create_rule-Keeps r =
    insert-Keeps InOrder _ _ (λ id t t' i e. same_deliveries _ t' (unless-ok _ _ _ t' e) i)

pub append_change-Keeps : (c : RouteRuleChangeLog) → Keeps InOrder (append_change c)
unfolding append_change change_row InOrder
append_change-Keeps c =
    insert-Keeps InOrder _ _ (λ id t t' i e. same_deliveries _ t' (unless-ok _ _ _ t' e) i)

pub record_audit-Keeps : (a : ApiKeyAudit) → Keeps InOrder (record_audit a)
unfolding record_audit audit_row InOrder
record_audit-Keeps a = insert-Keeps InOrder _ _ (λ id t t' i e. same_deliveries _ t' (ok-inj e) i)

pub create_delivery-Keeps :
    (d : DeliveryRecord) → in_order d ≡ true → Keeps InOrder (create_delivery d)
unfolding create_delivery delivery_row InOrder in_order
create_delivery-Keeps d o = insert-Keeps InOrder _ _ (λ id t t' i e.
    same_deliveries _ t'
      (unless-ok (not (has_rule d.rule_id t)) foreign_key _ t'
        (unless_again (not (has_event d.event_id t)) foreign_key _ t' e))
      (appended id t i))
  where
    appended :
        (id : ℕ) (t : Tables)
        → InOrder t
        → All (λ d. in_order d ≡ true) (t.deliveries ++ record d { id = id } ∷ [])
    appended id t i =
        All-append (λ d. in_order d ≡ true) t.deliveries (record d { id = id } ∷ []) (o, tt) i

pub set_status-Keeps :
    (id : Bytes) (status : DeviceStatus) (at : Time) → Keeps InOrder (set_status id status at)
unfolding set_status InOrder
set_status-Keeps id status at = update-Keeps InOrder _ (λ t i. i)

pub touch_seen-Keeps : (id : Bytes) (at : Time) → Keeps InOrder (touch_seen id at)
unfolding touch_seen InOrder
touch_seen-Keeps id at = update-Keeps InOrder _ (λ t i. i)

pub update_rule-Keeps : (r : RouteRule) → Keeps InOrder (update_rule r)
unfolding update_rule InOrder
update_rule-Keeps r = update-Keeps InOrder _ (λ t i. i)

pub soft_delete-Keeps : (id : Bytes) (at : Time) → Keeps InOrder (soft_delete id at)
unfolding soft_delete InOrder
soft_delete-Keeps id at = update-Keeps InOrder _ (λ t i. i)

pub update_event_status-Keeps :
    (id : Bytes) (status : EventStatus) → Keeps InOrder (update_event_status id status)
unfolding update_event_status InOrder
update_event_status-Keeps id status = update-Keeps InOrder _ (λ t i. i)

change_delivery-Keeps :
    (id : ℕ) (f : DeliveryRecord → DeliveryRecord)
    → ((d : DeliveryRecord) → in_order (f d) ≡ true)
    → Keeps InOrder (update (change_delivery id f))
unfolding InOrder
change_delivery-Keeps id f h =
    update-Keeps InOrder _ (λ t i. All-change_where (λ d. d.id == id) f t.deliveries (λ d _. h d) i)

pub mark_delivered-Keeps : (id : ℕ) (at : Time) → Keeps InOrder (mark_delivered id at)
unfolding mark_delivered in_order
mark_delivered-Keeps id at = change_delivery-Keeps id _ (λ d. tried d.attempts)
  where
    tried : (n : ℕ) → leb 1 (suc n) && true && true ≡ true
    tried n = ground arith

pub mark_dead-Keeps : (id : ℕ) (text : Bytes) (at : Time) → Keeps InOrder (mark_dead id text at)
unfolding mark_dead in_order
mark_dead-Keeps id text at = change_delivery-Keeps id _ (λ d. refl)

pub mark_failed-Keeps :
    (id attempt : ℕ) (text : Bytes) (next_retry : Time)
    → Keeps InOrder (mark_failed id attempt text next_retry)
unfolding mark_failed in_order
mark_failed-Keeps id attempt text next_retry = change_delivery-Keeps id _ (λ d. refl)
