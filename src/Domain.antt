-- ===== src/Domain.antt =====
-- internal/domain/domain.go: the entities and their status values. Strings are bytes, instants are
-- nanoseconds from an origin before every instant that time.Parse returns, a float64 is its bit
-- pattern, a nil pointer is `none`, and a JSON document is its text.
pub mod Errors
use device_telemetry_ro.Prelude.Int.{ℤ}
use device_telemetry_ro.Prelude.Bytes.{Bytes}
use device_telemetry_ro.Prelude.{ℕ, Bool, Option, List}

abbrev pub Time : Type 0
Time = ℕ

abbrev pub Float64 : Type 0
Float64 = ℕ

-- `DeviceStatus` is a string: a request may carry any other.
pub data DeviceStatus : Type 0 where
  device_pending device_active device_suspended device_deleted : DeviceStatus
  other_device_status : Bytes → DeviceStatus

pub record Device : Type 0 where
  pub device_id : Bytes
  pub name : Bytes
  pub protocol_version : Bytes
  pub status : DeviceStatus
  pub metadata : Bytes
  pub last_seen_at : Option Time
  pub created_at : Time
  pub updated_at : Time

pub data RawStatus : Type 0 where
  raw_received raw_parsed raw_rejected raw_duplicate : RawStatus

pub record RawMessage : Type 0 where
  pub id : ℕ
  pub device_id : Bytes
  pub raw_text : Bytes
  pub checksum_received : Bytes
  pub checksum_expected : Bytes
  pub received_at : Time
  pub dedup_key : Bytes
  pub status : RawStatus
  pub parse_error : Bytes
  pub event_id : Option Bytes

pub data EventStatus : Type 0 where
  event_created event_routed event_dispatched event_dead_letter : EventStatus

pub record Event : Type 0 where
  pub id : ℕ
  pub event_id : Bytes
  pub device_id : Bytes
  pub ts : Time
  pub metric : Bytes
  pub value : Float64
  pub unit : Bytes
  pub dedup_key : Bytes
  pub route_key : Bytes
  pub status : EventStatus
  pub parsed_at : Time

-- `none` is the nil slice of metrics, which differs from the empty one.
pub record Matcher : Type 0 where
  pub device_pattern : Bytes
  pub metrics : Option (List Bytes)
  pub expr : Bytes

pub record RouteRule : Type 0 where
  pub id : ℕ
  pub rule_id : Bytes
  pub name : Bytes
  pub matcher : Matcher
  pub topic : Bytes
  pub priority : ℤ
  pub enabled : Bool
  pub deleted_at : Option Time
  pub created_at : Time
  pub updated_at : Time

pub data ChangeAction : Type 0 where
  action_create action_update action_disable action_enable action_delete : ChangeAction

pub record RouteRuleChangeLog : Type 0 where
  pub id : ℕ
  pub rule_id : Bytes
  pub action : ChangeAction
  pub before_json : Option Bytes
  pub after_json : Option Bytes
  pub operator : Bytes
  pub changed_at : Time

pub data DeliveryStatus : Type 0 where
  delivery_pending delivery_dispatched delivery_failed delivery_dead : DeliveryStatus

pub record DeliveryRecord : Type 0 where
  pub id : ℕ
  pub event_id : Bytes
  pub rule_id : Bytes
  pub topic : Bytes
  pub status : DeliveryStatus
  pub attempts : ℕ
  pub last_error : Bytes
  pub next_retry_at : Option Time
  pub dispatched_at : Option Time

pub data AuditAction : Type 0 where
  audit_authenticated audit_rejected : AuditAction

pub record ApiKeyAudit : Type 0 where
  pub id : ℕ
  pub key_hash : Bytes
  pub action : AuditAction
  pub operator : Bytes
  pub remote : Bytes
  pub path : Bytes
  pub at : Time
