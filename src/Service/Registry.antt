-- ===== src/Service/Registry.antt =====
-- internal/service/service.go: the tables after a registration or a change of status that fails.
use device_telemetry_ro.Prelude.Bytes.{Bytes}
use device_telemetry_ro.Domain.{Time, DeviceStatus, Device}
use device_telemetry_ro.Domain.Errors.{Error}
use device_telemetry_ro.External.{External}
use device_telemetry_ro.Db.{◌>>=◌, pure, catch}
use device_telemetry_ro.Db.Atomic.{
  IsReadOnly, IsAtomic, throw-IsReadOnly, bind-IsAtomic, bind_pure-IsAtomic, catch-IsAtomic,
  update-IsAtomic, insert-IsAtomic,
}
use device_telemetry_ro.Store.Devices.{create_device, set_status}
use device_telemetry_ro.Service.{
  is_unique_violation, created_or, register_device, set_device_status,
}
use device_telemetry_ro.Service.Safe.{require-IsAtomic, find_device-IsReadOnly, if-IsReadOnly}

throw_or-IsReadOnly : (ext : External) (d : Device) (e : Error) → IsReadOnly (created_or ext d e)
throw_or-IsReadOnly ext d e =
    if-IsReadOnly ext (is_unique_violation ext e) _ _ (throw-IsReadOnly Device _)
      (throw-IsReadOnly Device e)

register-IsAtomic :
    (ext : External) (d : Device)
    → IsAtomic (catch (create_device d >>= λ _. pure d) (created_or ext d))
unfolding create_device
register-IsAtomic ext d =
    catch-IsAtomic _ _ (bind_pure-IsAtomic _ (λ _. d) (insert-IsAtomic _ _))
      (λ e. throw_or-IsReadOnly ext d e)

pub register_device-IsAtomic :
    (ext : External) (now : Time) (id name version metadata : Bytes)
    → IsAtomic (register_device ext now id name version metadata)
unfolding register_device
register_device-IsAtomic ext now id name version metadata =
    require-IsAtomic _ _ _ (require-IsAtomic _ _ _ (register-IsAtomic ext _))

pub set_device_status-IsAtomic :
    (at : Time) (id : Bytes) (status : DeviceStatus) → IsAtomic (set_device_status at id status)
unfolding set_device_status set_status
set_device_status-IsAtomic at id status =
    bind-IsAtomic _ _ (find_device-IsReadOnly id) (λ _. require-IsAtomic _ _ _ (update-IsAtomic _))
