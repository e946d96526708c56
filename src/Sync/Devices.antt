-- ===== src/Sync/Devices.antt =====
-- src/services/deviceService.ts
use offline_qr_school_attend.Common.{
  ℕ, suc, Bool, true, false, ◌&&◌, not, Option, none, some, List, [], ◌∷◌, ◌++◌, map, ◌==◌, find?,
  if◌then◌else◌,
}
use offline_qr_school_attend.Common.Result.{Result, returns, ◌>>=◌, ◌>>◌, require, or_throw}
use offline_qr_school_attend.Notifications.Absence.{same_text}
use offline_qr_school_attend.Sync.Types.{Device, DeviceStatus}

abbrev pub is_device : ℕ → List ℕ → Device → Bool
is_device school identifier d = d.school_id == school && same_text d.device_identifier identifier

abbrev pub is_revoked_status : DeviceStatus → Bool
is_revoked_status DeviceStatus.revoked = true
is_revoked_status DeviceStatus.authorized = false

pub data DeviceReason : Type 0 where
  device_not_found device_revoked : DeviceReason

unfoldable pub validate_device_status : ℕ → List ℕ → List Device → Result DeviceReason Device
validate_device_status school identifier devices = do
  device ← or_throw (find? (is_device school identifier) devices) DeviceReason.device_not_found
  require (not (is_revoked_status device.status)) DeviceReason.device_revoked
  returns device

pub data DeviceAction : Type 0 where
  register revoke : DeviceAction

pub record DeviceLog : Type 0 where
  pub school_id : ℕ
  pub actor_id : ℕ
  pub action : DeviceAction
  pub resource_id : ℕ

pub record DeviceDb : Type 0 where
  pub next_id : ℕ
  pub devices : List Device
  pub audit_logs : List DeviceLog

pub record Registered : Type 0 where
  pub db : DeviceDb
  pub device : Device

abbrev pub new_device : ℕ → ℕ → List ℕ → ℕ → Device
new_device school user identifier id = record {
  id = id;
  school_id = school;
  user_id = user;
  device_identifier = identifier;
  status = DeviceStatus.authorized;
}

abbrev pub insert_device : ℕ → ℕ → List ℕ → DeviceDb → Registered
insert_device school user identifier db = record {
  db = record {
    next_id = suc db.next_id;
    devices = db.devices ++ new_device school user identifier db.next_id ∷ [];
    audit_logs =
        db.audit_logs
        ++ record {
          school_id = school;
          actor_id = user;
          action = DeviceAction.register;
          resource_id = db.next_id;
        }
          ∷ [];
  };
  device = new_device school user identifier db.next_id;
}

abbrev pub return_or_insert :
    ℕ → ℕ → List ℕ → DeviceDb → Option Device → Result DeviceReason Registered
return_or_insert school user identifier db none = returns (insert_device school user identifier db)
return_or_insert school user identifier db (some device) = do
  require (not (is_revoked_status device.status)) DeviceReason.device_revoked
  returns (record { db = db; device = device })

-- `registerDevice`
unfoldable pub register_device : ℕ → ℕ → List ℕ → DeviceDb → Result DeviceReason Registered
register_device school user identifier db =
    return_or_insert school user identifier db (find? (is_device school identifier) db.devices)

abbrev pub has_device_id : ℕ → ℕ → Device → Bool
has_device_id school id d = d.id == id && d.school_id == school

abbrev pub revoke_if : ℕ → ℕ → Device → Device
revoke_if school id d =
    if has_device_id school id d then record d { status = DeviceStatus.revoked } else d

abbrev pub log_revocation : ℕ → ℕ → ℕ → Option Device → DeviceDb → DeviceDb
log_revocation school id actor none db = db
log_revocation school id actor (some device) db = record db {
  audit_logs =
      db.audit_logs
      ++ record {
        school_id = school;
        actor_id = actor;
        action = DeviceAction.revoke;
        resource_id = id;
      }
        ∷ [];
}

-- `revokeDevice`
unfoldable pub revoke_device : ℕ → ℕ → ℕ → DeviceDb → DeviceDb
revoke_device school id actor db =
    log_revocation school id actor (find? (has_device_id school id) db.devices)
      (record db { devices = map (revoke_if school id) db.devices })
