-- ===== src/Store/Devices.antt =====
-- internal/store/pg_device_raw.go and pg_event.go: devices, raw messages and events.
use device_telemetry_ro.Prelude.{find, any, ℕ, suc, not, Option, none, some, [], ◌∷◌, ◌++◌}
use device_telemetry_ro.Prelude.Bytes.{Bytes, eqb}
use device_telemetry_ro.Domain.{Time, DeviceStatus, Device, RawMessage, EventStatus, Event}
use device_telemetry_ro.Domain.Errors.{Result, ok}
use device_telemetry_ro.Db.{Tables, Exec, query, update, insert}
use device_telemetry_ro.Store.{
  duplicate_key, foreign_key, unless, has_device, has_event, change_where,
}

unfoldable pub insert_device : Device → Tables → Result Tables
unfolding duplicate_key
insert_device d t =
    unless (has_device d.device_id t) duplicate_key
      (ok (record t { devices = t.devices ++ record d { last_seen_at = none } ∷ [] }))

-- `insertDevice`. The table has no sequence.
unfoldable pub create_device : Device → Exec ℕ
create_device d = insert (λ s. (s, 0)) (λ id. insert_device d)

unfoldable pub get_device : Bytes → Exec (Option Device)
get_device id = query (λ t. find (λ d. eqb d.device_id id) t.devices)

unfoldable pub set_status : Bytes → DeviceStatus → Time → Exec (Unit {0})
set_status id status at = update (λ t. record t {
  devices =
      change_where (λ d. eqb d.device_id id) (λ d. record d { status = status; updated_at = at })
        t.devices;
})

unfoldable pub touch_seen : Bytes → Time → Exec (Unit {0})
touch_seen id at = update (λ t. record t {
  devices =
      change_where (λ d. eqb d.device_id id)
        (λ d. record d { last_seen_at = some at; updated_at = at }) t.devices;
})

unfoldable pub raw_row : RawMessage → ℕ → Tables → Result Tables
unfolding duplicate_key foreign_key
raw_row m id t = unless (any (λ r. eqb r.dedup_key m.dedup_key) t.raws) duplicate_key (
    unless (not (has_device m.device_id t)) foreign_key
      (ok (record t { raws = t.raws ++ record m { id = id } ∷ [] })))

unfoldable pub insert_raw : RawMessage → Exec ℕ
insert_raw m = insert (λ s. (record s { raw_seq = suc s.raw_seq }, suc s.raw_seq)) (raw_row m)

-- `findRawByDedup`
unfoldable pub find_by_dedup_key : Bytes → Exec (Option RawMessage)
find_by_dedup_key key = query (λ t. find (λ r. eqb r.dedup_key key) t.raws)

unfoldable pub event_row : Event → ℕ → Tables → Result Tables
unfolding duplicate_key foreign_key
event_row e id t = unless (has_event e.event_id t) duplicate_key (
    unless (not (has_device e.device_id t)) foreign_key
      (ok (record t { events = t.events ++ record e { id = id } ∷ [] })))

unfoldable pub create_event : Event → Exec ℕ
create_event e =
    insert (λ s. (record s { event_seq = suc s.event_seq }, suc s.event_seq)) (event_row e)

unfoldable pub get_event : Bytes → Exec (Option Event)
get_event id = query (λ t. find (λ e. eqb e.event_id id) t.events)

unfoldable pub update_event_status : Bytes → EventStatus → Exec (Unit {0})
update_event_status id status = update (λ t. record t {
  events = change_where (λ e. eqb e.event_id id) (λ e. record e { status = status }) t.events;
})
