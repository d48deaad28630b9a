-- ===== src/Service/Replay.antt =====
-- internal/service/replay.go: an event is delivered again to the rules that match it now and have no
-- delivery of it waiting.
use device_telemetry_ro.Prelude.{
  if◌then◌else◌, length, keep, any, ℕ, none, some, List, [], ◌∷◌, map,
}
use device_telemetry_ro.Prelude.Bytes.{Bytes, eqb}
use device_telemetry_ro.Domain.{Time, RouteRule, delivery_pending, DeliveryRecord}
use device_telemetry_ro.External.{External}
use device_telemetry_ro.Db.{◌>>=◌, Exec, pure}
use device_telemetry_ro.Store.Deliveries.{create_delivery, is_waiting, list_deliveries_by_event}
use device_telemetry_ro.Service.{find_event}
use device_telemetry_ro.Service.Ingest.{matching}

pub record ReplayResult : Type 0 where
  pub event_id : Bytes
  pub matched_rules : List Bytes
  pub created_rules : List Bytes
  pub replayed_count : ℕ

-- the keys of the map `pending`
unfoldable pub waiting_rules : List DeliveryRecord → List Bytes
waiting_rules ds = map (λ d. d.rule_id) (keep (λ d. is_waiting d.status) ds)

-- the loop over the matched rules: the ids of those that got a new delivery
unfoldable pub deliver_missing : Time → Bytes → List Bytes → List RouteRule → Exec (List Bytes)
deliver_missing now event_id pending [] = pure []
deliver_missing now event_id pending (r ∷ rs) =
    let rest = deliver_missing now event_id pending rs in
    if any (λ id. eqb id r.rule_id) pending
    then rest
    else create_delivery (record {
      id = 0;
      event_id = event_id;
      rule_id = r.rule_id;
      topic = r.topic;
      status = delivery_pending;
      attempts = 0;
      last_error = [];
      next_retry_at = some now;
      dispatched_at = none;
    })
      >>= λ _. rest >>= λ created. pure (r.rule_id ∷ created)

-- `ReplayEvent`
unfoldable pub replay_event : External → Time → Bytes → Exec ReplayResult
replay_event ext now event_id = do
  ev ← find_event event_id
  matched ← matching ext ev
  existing ← list_deliveries_by_event event_id
  created ← deliver_missing now event_id (waiting_rules existing) matched
  pure (record {
    event_id = event_id;
    matched_rules = map (λ r. r.rule_id) matched;
    created_rules = created;
    replayed_count = length created;
  })

-- `ListDeliveries`
unfoldable pub list_deliveries : Bytes → Exec (List DeliveryRecord)
list_deliveries event_id = find_event event_id >>= λ _. list_deliveries_by_event event_id
