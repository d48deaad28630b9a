-- ===== src/Store/Listing.antt =====
-- internal/store/pg_device_raw.go and pg_event.go: the list of devices, and pages of events.
use device_telemetry_ro.Prelude.{
  ltb, leb, ◌==◌, if◌then◌else◌, length, take, drop, keep, ℕ, ◌-◌, ◌*◌, ◌%◌, Bool, true, ◌&&◌, ◌||◌,
  Option, none, some, List, [],
}
use device_telemetry_ro.Prelude.Int.{ℤ, pos, negsuc, pos_part, ltb_ℤ, two_64, from_bits}
use device_telemetry_ro.Prelude.Bytes.{Bytes, codes, eqb}
use device_telemetry_ro.Prelude.Sort.{sort_by}
use device_telemetry_ro.Domain.{
  Time, Device, EventStatus, event_created, event_routed, event_dispatched, event_dead_letter,
  Event,
}
use device_telemetry_ro.Domain.Errors.{driver, Result, ok, err}
use device_telemetry_ro.External.{External}
use device_telemetry_ro.Db.{◌>>=◌, Exec, pure, throw, query}

-- ORDER BY created_at DESC
abbrev newer_device : Device → Device → Bool
newer_device a b = leb b.created_at a.created_at

unfoldable pub list_devices : Exec (List Device)
list_devices = query (λ t. sort_by newer_device t.devices)

-- `EventFilter`
pub record EventFilter : Type 0 where
  pub device_id : Bytes
  pub metric : Bytes
  pub from : Option Time
  pub to : Option Time
  pub status : Bytes
  pub page : ℤ
  pub size : ℤ

-- the text of a status in its column
unfoldable pub status_text : EventStatus → Bytes
status_text event_created = codes "created"
status_text event_routed = codes "routed"
status_text event_dispatched = codes "dispatched"
status_text event_dead_letter = codes "dead_letter"

-- `appendEq`: an empty value is no condition
abbrev equals_or_empty : Bytes → Bytes → Bool
equals_or_empty wanted value = eqb wanted [] || eqb value wanted

abbrev not_before : Option Time → Time → Bool
not_before none ts = true
not_before (some from) ts = leb from ts

abbrev not_after : Option Time → Time → Bool
not_after none ts = true
not_after (some to) ts = leb ts to

-- the WHERE clause of `queryEvents`
unfoldable pub passes_filter : EventFilter → Event → Bool
passes_filter f e =
    equals_or_empty f.device_id e.device_id
    && equals_or_empty f.metric e.metric
    && equals_or_empty f.status (status_text e.status)
    && not_before f.from e.ts
    && not_after f.to e.ts

abbrev at_least_one : ℤ → ℤ → ℤ
at_least_one default n = if ltb_ℤ n (pos 1) then default else n

unfoldable pub page_of : EventFilter → ℤ
page_of f = at_least_one (pos 1) f.page

unfoldable pub size_of : EventFilter → ℤ
size_of f = at_least_one (pos 20) f.size

-- `(f.Page - 1) * f.Size` on int64, which wraps, of a page and a size of at least one
unfoldable pub offset_of : EventFilter → ℤ
offset_of f = from_bits (((pos_part (page_of f) - 1) * pos_part (size_of f)) % two_64)

-- ORDER BY ts DESC, which leaves the order of events of one time open, on each page anew
abbrev pub goes_first : (Event → Event → Bool) → Event → Event → Bool
goes_first tie a b = if a.ts == b.ts then tie a b else ltb b.ts a.ts

-- the rows that a query of a page cuts by LIMIT and OFFSET
unfoldable pub filtered : External → EventFilter → List Event → List Event
filtered ext f es =
    let selected = keep (passes_filter f) es in
    sort_by (goes_first (ext.tie_order selected (page_of f) (size_of f))) selected

-- the rows of LIMIT and OFFSET; PostgreSQL refuses an OFFSET below zero
abbrev pub page_rows : ℤ → ℤ → List Event → Result (List Event)
page_rows size (pos offset) es = ok (take (pos_part size) (drop offset es))
page_rows size (negsuc n) es = err (driver (codes "pq: OFFSET must not be negative"))

abbrev pub or_refused {ℓ} : {A : Type ℓ} → Result A → Exec A
or_refused (ok a) = pure a
or_refused (err e) = throw e

-- `queryEvents`
unfoldable pub query_events : External → EventFilter → Exec (List Event × ℕ)
query_events ext f = do
  total ← query (λ t. length (keep (passes_filter f) t.events))
  rows ← query (λ t. page_rows (size_of f) (offset_of f) (filtered ext f t.events))
  items ← or_refused rows
  pure (items, total)
