-- ===== src/Service.antt =====
-- internal/service/service.go: the devices, and what the use cases share. The clock, a fresh event
-- id and the operator of a request are arguments; a request's context is not modelled otherwise.
pub mod Ingest
pub mod RuleChanges
pub mod Listing
pub mod Replay
pub mod Safe
pub mod Registry
pub mod Lifecycle
pub mod Effect
pub mod Duplicate
pub mod Recorded
pub mod Replayed
use device_telemetry_ro.Prelude.{
  leb, ◌==◌, if◌then◌else◌, length, any, all, Bool, true, false, not, ◌&&◌, ◌||◌, Option, none,
  some, List, [], ◌∷◌, ◌++◌,
}
use device_telemetry_ro.Prelude.Bytes.{Bytes, codes, eqb}
use device_telemetry_ro.Domain.{
  Time, DeviceStatus, device_active, device_suspended, device_deleted, Device, Event,
}
use device_telemetry_ro.Domain.Errors.{
  ApiError, err_invalid_field, err_device_not_found, err_device_conflict, err_event_not_found,
  no_details, field, Error, api, driver, message_of, with_details,
}
use device_telemetry_ro.External.{External}
use device_telemetry_ro.Db.{◌>>=◌, ◌>>◌, Exec, pure, throw, catch}
use device_telemetry_ro.Parser.{device_id_byte}
use device_telemetry_ro.Store.Devices.{create_device, get_device, set_status, get_event}

abbrev pub starts_with : Bytes → Bytes → Bool
starts_with [] s = true
starts_with (c ∷ cs) [] = false
starts_with (c ∷ cs) (x ∷ xs) = c == x && starts_with cs xs

unfoldable pub contains : Bytes → Bytes → Bool
contains [] sub = starts_with sub []
contains (x ∷ xs) sub = starts_with sub (x ∷ xs) || contains xs sub

unfoldable pub contains_any : Bytes → List Bytes → Bool
contains_any s subs = any (λ sub. contains s sub) subs

abbrev pub plain : ApiError → Error
plain e = api e no_details

abbrev pub or_throw {ℓ} : {A : Type ℓ} → Option A → Error → Exec A
or_throw none e = throw e
or_throw (some a) e = pure a

abbrev pub require : Bool → Error → Exec (Unit {0})
require true e = pure tt
require false e = throw e

-- `OperatorFrom`
unfoldable pub operator_from : Option Bytes → Bytes
operator_from none = codes "system"
operator_from (some v) = if eqb v [] then codes "system" else v

-- `deviceIDRe`
unfoldable pub is_device_id : Bytes → Bool
is_device_id id = leb 8 (length id) && leb (length id) 32 && all device_id_byte id

abbrev pub known_status : DeviceStatus → Bool
known_status device_active = true
known_status device_suspended = true
known_status device_deleted = true
known_status _ = false

module _ (ext : External) where
  -- `Error.Error`
  unfoldable pub error_text : Error → Bytes
  error_text (driver text) = text
  error_text (api e no_details) = message_of e
  error_text (api e d) = message_of e ++ codes ": " ++ ext.format_details d

  unfoldable pub is_unique_violation : Error → Bool
  is_unique_violation e =
      contains_any (error_text e)
        (codes "duplicate key" ∷ codes "unique constraint" ∷ codes "SQLSTATE 23505" ∷ [])

  abbrev pub created_or : Device → Error → Exec Device
  created_or d e = if is_unique_violation e then throw (plain err_device_conflict) else throw e

  -- `RegisterDevice`
  unfoldable pub register_device : Time → Bytes → Bytes → Bytes → Bytes → Exec Device
  register_device now device_id name protocol_version metadata = do
    require (is_device_id device_id) (with_details err_invalid_field (field (codes "device_id")))
    require (not (eqb name [])) (with_details err_invalid_field (field (codes "name")))
    let d : Device = record {
      device_id = device_id;
      name = name;
      protocol_version = if eqb protocol_version [] then codes "v1" else protocol_version;
      status = device_active;
      metadata = metadata;
      last_seen_at = none;
      created_at = now;
      updated_at = now;
    }
    catch (create_device d >>= λ _. pure d) (created_or d)

-- `Service.GetDevice`
unfoldable pub find_device : Bytes → Exec Device
find_device id = get_device id >>= λ found. or_throw found (plain err_device_not_found)

-- `Service.SetDeviceStatus`
unfoldable pub set_device_status : Time → Bytes → DeviceStatus → Exec (Unit {0})
set_device_status at id status = do
  _ ← find_device id
  require (known_status status) (with_details err_invalid_field (field (codes "status")))
  set_status id status at

-- `Service.GetEvent`
unfoldable pub find_event : Bytes → Exec Event
find_event id = get_event id >>= λ found. or_throw found (plain err_event_not_found)
