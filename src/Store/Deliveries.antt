-- ===== src/Store/Deliveries.antt =====
-- internal/store/pg_delivery.go and pg_delivery_retry.go: the deliveries of events to topics.
use device_telemetry_ro.Prelude.{
  ltb, leb, ◌==◌, if◌then◌else◌, length, take, keep, ℕ, suc, Bool, true, false, not, ◌&&◌, none,
  some, List, [], ◌∷◌, ◌++◌,
}
use device_telemetry_ro.Prelude.Int.{ℤ, pos, pos_part, leb_ℤ}
use device_telemetry_ro.Prelude.Bytes.{Bytes, eqb}
use device_telemetry_ro.Domain.{
  Time, DeliveryStatus, delivery_pending, delivery_dispatched, delivery_failed, delivery_dead,
  DeliveryRecord,
}
use device_telemetry_ro.Domain.Errors.{Result, ok}
use device_telemetry_ro.Db.{Tables, Exec, query, update, insert}
use device_telemetry_ro.Store.{foreign_key, unless, has_event, has_rule, change_where}

unfoldable pub delivery_row : DeliveryRecord → ℕ → Tables → Result Tables
unfolding foreign_key
delivery_row d id t = unless (not (has_event d.event_id t)) foreign_key (
    unless (not (has_rule d.rule_id t)) foreign_key
      (ok (record t { deliveries = t.deliveries ++ record d { id = id } ∷ [] })))

unfoldable pub create_delivery : DeliveryRecord → Exec ℕ
create_delivery d =
    insert (λ s. (record s { delivery_seq = suc s.delivery_seq }, suc s.delivery_seq))
      (delivery_row d)

abbrev pub is_pending : DeliveryStatus → Bool
is_pending delivery_pending = true
is_pending _ = false

-- status IN ('pending','failed')
abbrev pub is_waiting : DeliveryStatus → Bool
is_waiting delivery_pending = true
is_waiting delivery_failed = true
is_waiting _ = false

unfoldable pub pending_count : Exec ℕ
pending_count = query (λ t. length (keep (λ d. is_pending d.status) t.deliveries))

-- next_retry_at <= now, which is not true of NULL
unfoldable pub is_due : Time → DeliveryRecord → Bool
is_due now d = is_waiting d.status && (elim d.next_retry_at [ none ↦ false | some at ↦ leb at now ])

abbrev retry_time : DeliveryRecord → Time
retry_time d = elim d.next_retry_at [ none ↦ 0 | some at ↦ at ]

-- ORDER BY next_retry_at ASC, id ASC
unfoldable pub earlier : DeliveryRecord → DeliveryRecord → Bool
earlier a b =
    if retry_time a == retry_time b then leb a.id b.id else ltb (retry_time a) (retry_time b)

unfoldable pub insert_due : DeliveryRecord → List DeliveryRecord → List DeliveryRecord
insert_due d [] = d ∷ []
insert_due d (x ∷ xs) = let rest = insert_due d xs in if earlier x d then x ∷ rest else d ∷ x ∷ xs

unfoldable pub sort_due : List DeliveryRecord → List DeliveryRecord
unfolding insert_due
sort_due [] = []
sort_due (d ∷ ds) = insert_due d (sort_due ds)

-- `listDueDeliveries`
unfoldable pub list_due_deliveries : Time → ℤ → Exec (List DeliveryRecord)
list_due_deliveries now limit = query (λ t.
    take (if leb_ℤ limit (pos 0) then 100 else pos_part limit)
      (sort_due (keep (is_due now) t.deliveries)))

-- ORDER BY id ASC is the order of insertion.
unfoldable pub list_deliveries_by_event : Bytes → Exec (List DeliveryRecord)
list_deliveries_by_event event_id = query (λ t. keep (λ d. eqb d.event_id event_id) t.deliveries)

abbrev pub change_delivery : ℕ → (DeliveryRecord → DeliveryRecord) → Tables → Tables
change_delivery id f t = record t { deliveries = change_where (λ d. d.id == id) f t.deliveries }

unfoldable pub mark_delivered : ℕ → Time → Exec (Unit {0})
mark_delivered id at = update (
    change_delivery id (λ d. record d {
      status = delivery_dispatched;
      attempts = suc d.attempts;
      last_error = [];
      next_retry_at = none;
      dispatched_at = some at;
    }))

unfoldable pub mark_failed : ℕ → ℕ → Bytes → Time → Exec (Unit {0})
mark_failed id attempt last_err next_retry = update (
    change_delivery id (λ d. record d {
      status = delivery_failed;
      attempts = attempt;
      last_error = last_err;
      next_retry_at = some next_retry;
    }))

unfoldable pub mark_dead : ℕ → Bytes → Time → Exec (Unit {0})
mark_dead id last_err at = update (
    change_delivery id (λ d. record d {
      status = delivery_dead;
      last_error = last_err;
      next_retry_at = none;
      dispatched_at = some at;
    }))
