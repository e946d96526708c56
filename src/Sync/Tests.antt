-- ===== src/Sync/Tests.antt =====
-- Runs of the synchronisation, and the theorems at concrete inputs.
use offline_qr_school_attend.Common.{
  ℕ, ◌+◌, ◌*◌, ◌≡◌, refl, true, false, none, List, [], ◌∷◌, ◌++◌, map, ◌⊎◌, ◌==◌, if◌then◌else◌,
}
use offline_qr_school_attend.Common.Result.{throws, returns}
use offline_qr_school_attend.Directory.{Directory}
use offline_qr_school_attend.Attendance.Types.{Failure}
use offline_qr_school_attend.Attendance.Unique.{WellFormed}
use offline_qr_school_attend.Store.{EventType, AttendanceStatus}
use offline_qr_school_attend.Sync.Types.{
  EventMetadata, SyncEventPayload, SyncSessionPayload, SyncParams, SyncError, ItemStatus,
  SyncBatchResultItem, SyncResponse, DeviceStatus, Device, SyncDirectory, SyncDb,
}
use offline_qr_school_attend.Sync.Devices.{
  DeviceDb, DeviceReason, register_device, revoke_device, validate_device_status,
}
use offline_qr_school_attend.Sync.Sessions.{is_uuid, is_client_session, session_payloads}
use offline_qr_school_attend.Sync.Events.{EventRun}
use offline_qr_school_attend.Sync.Batch.{Synced, finish_batch, sync_attendance_events}
use offline_qr_school_attend.Sync.Invariant.{sync_attendance_events-WellFormed}
use offline_qr_school_attend.Sync.Rerun.{processed_item}
use offline_qr_school_attend.Sync.Payloads.{HasDistinctIds}
use offline_qr_school_attend.Sync.Resend.{
  IsAnsweredAgain, IsRolledBack, sync_attendance_events-resent, sync_attendance_events-unchanged,
}

abbrev digest : List ℕ → ℕ
digest [] = 7
digest (c ∷ s) = c + 31 * digest s

abbrev zeros : List ℕ
zeros = b'0' ∷ b'0' ∷ b'0' ∷ b'0' ∷ []

-- 00000000-0000-4000-a000-000000000000
abbrev client : List ℕ
client =
    zeros
    ++ zeros
    ++ b'-' ∷ zeros
    ++ b'-' ∷ b'4' ∷ b'0' ∷ b'0' ∷ b'0' ∷ b'-' ∷ b'a' ∷ b'0' ∷ b'0' ∷ b'0' ∷ b'-' ∷ zeros
    ++ zeros
    ++ zeros

client-is_uuid : is_uuid client ≡ true
unfolding is_uuid
client-is_uuid = refl

short_is_no_uuid : is_uuid zeros ≡ false
unfolding is_uuid
short_is_no_uuid = refl

-- Teacher 5 has section 3, where the students 21 and 22 have cards.
abbrev directory : Directory
directory = record {
  teacher_assignments = record { school_id = 1; teacher_id = 5; class_section_id = 3 } ∷ [];
  students =
      record { id = 21; school_id = 1; status = "ACTIVE" }
      ∷ record { id = 22; school_id = 1; status = "ACTIVE" }
      ∷ [];
  enrollments =
      record { id = 31; school_id = 1; student_id = 21; class_section_id = 3; status = "ACTIVE" }
      ∷ record { id = 32; school_id = 1; student_id = 22; class_section_id = 3; status = "ACTIVE" }
      ∷ [];
  qr_credentials =
      record { school_id = 1; student_id = 21; token_digest = digest (9 ∷ []); status = "ACTIVE" }
      ∷ record {
        school_id = 1;
        student_id = 22;
        token_digest = digest (8 ∷ []);
        status = "REVOKED";
      }
      ∷ [];
  guardians = [];
  sms_settings = λ school. none;
}

abbrev phone : Device
phone = record {
  id = 2;
  school_id = 1;
  user_id = 5;
  device_identifier = b'd' ∷ [];
  status = DeviceStatus.authorized;
}

abbrev school : SyncDirectory
school = record {
  directory = directory;
  users = record { id = 5; status = "ACTIVE" } ∷ [];
  memberships = record { school_id = 1; user_id = 5; status = "ACTIVE" } ∷ [];
  devices = phone ∷ [];
}

abbrev no_metadata : EventMetadata
no_metadata = record {
  client_session_id = [];
  class_section_id = none;
  session_date = none;
  session_type = "";
}

abbrev scan_21 : SyncEventPayload
scan_21 = record {
  client_event_id = 900;
  session_id = none;
  raw_token = 9 ∷ [];
  student_id = none;
  status_value = none;
  client_timestamp = 40;
  source = none;
  metadata = no_metadata;
  client_session_id = client;
}

-- The card of student 22 is revoked.
abbrev scan_22 : SyncEventPayload
scan_22 = record scan_21 { client_event_id = 901; raw_token = 8 ∷ [] }

abbrev offline_session : SyncSessionPayload
offline_session = record {
  client_session_id = client;
  class_section_id = 3;
  session_date = 20000;
  session_type = "DAILY";
}

abbrev batch : List SyncEventPayload → SyncParams
batch events = record {
  school_id = 1;
  actor_id = 5;
  device_identifier = b'd' ∷ [];
  user_role = none;
  events = events;
  sessions = offline_session ∷ [];
}

abbrev empty : SyncDb
empty = record {
  attendance = record {
    next_id = 100;
    sessions = [];
    roster = [];
    records = [];
    events = [];
    corrections = [];
    scan_events = [];
    jobs = [];
    audit_logs = [];
  };
  client_sessions = [];
  has_conflict = λ id. false;
  batches = [];
}

abbrev date : ℕ → ℕ
date now = 20000

abbrev synced : List SyncEventPayload → ℕ → SyncDb → Synced
synced events now db = sync_attendance_events digest date school (batch events) now db

abbrev mapped : List SyncBatchResultItem → SyncResponse
mapped results = record {
  processed_count = 2;
  results = results;
  session_mappings = record { client_session_id = client; server_session_id = 100 } ∷ [];
}

abbrev one_rejected : SyncResponse
one_rejected = mapped (
    record { client_event_id = 900; status = ItemStatus.accepted false }
    ∷ record { client_event_id = 901; status = ItemStatus.rejected Failure.revoked_qr_token }
    ∷ [])

one_is_rejected : (synced (scan_21 ∷ scan_22 ∷ []) 50 empty).answer ≡ returns one_rejected
unfolding sync_attendance_events
one_is_rejected = refl

abbrev scan_21_again : SyncEventPayload
scan_21_again = record scan_21 { client_event_id = 902 }

abbrev one_duplicate : SyncResponse
one_duplicate = mapped (
    record { client_event_id = 900; status = ItemStatus.accepted false }
    ∷ record { client_event_id = 902; status = ItemStatus.accepted true }
    ∷ [])

one_is_duplicate : (synced (scan_21 ∷ scan_21_again ∷ []) 50 empty).answer ≡ returns one_duplicate
unfolding sync_attendance_events
one_is_duplicate = refl

-- The card of student 21 again, with the identifier of an event that another session has logged.
abbrev elsewhere : SyncDb
elsewhere = record empty {
  attendance = record empty.attendance {
    next_id = 100;
    events =
        record {
          school_id = 1;
          client_event_id = 902;
          attendance_session_id = 77;
          student_id = 21;
          event_type = EventType.qr_scanned;
          status_value = AttendanceStatus.present;
          client_timestamp = 10;
          actor_id = none;
          actor_reader_id = none;
        }
        ∷ [];
  };
}

taken_id_rolls_back :
    synced (scan_21 ∷ scan_21_again ∷ []) 50 elsewhere
    ≡ record { db = elsewhere; answer = throws SyncError.transaction_aborted }
unfolding sync_attendance_events
taken_id_rolls_back = refl

suspended_is_refused :
    (sync_attendance_events digest date (record school { users = [] }) (batch []) 50 empty).answer
    ≡ throws SyncError.user_suspended
unfolding sync_attendance_events
suspended_is_refused = refl

abbrev device_db : DeviceDb
device_db = record { next_id = 3; devices = phone ∷ []; audit_logs = [] }

revoked_is_refused :
    validate_device_status 1 (b'd' ∷ []) (revoke_device 1 2 5 device_db).devices
    ≡ throws DeviceReason.device_revoked
unfolding validate_device_status revoke_device
revoked_is_refused = refl

revoked_stays_revoked :
    register_device 1 5 (b'd' ∷ []) (revoke_device 1 2 5 device_db)
    ≡ throws DeviceReason.device_revoked
unfolding register_device revoke_device
revoked_stays_revoked = refl

one_id : HasDistinctIds (session_payloads 20000 (offline_session ∷ []) (scan_21 ∷ scan_22 ∷ []))
unfolding session_payloads
one_id = (tt, tt)

one_id_again :
    HasDistinctIds (session_payloads 20000 (offline_session ∷ []) (scan_21 ∷ scan_21_again ∷ []))
unfolding session_payloads
one_id_again = (tt, tt)

-- The same identifier in upper case is the same client session.
abbrev upper_client : List ℕ
upper_client = map (λ c. if c == b'a' then b'A' else c) client

upper_case_is_found :
    is_client_session 1 upper_client
      (record { school_id = 1; client_session_id = client; session_id = 100 })
    ≡ true
upper_case_is_found = refl

sync_attendance_events-resent_example :
    let events = scan_21 ∷ scan_22 ∷ [] in
    IsAnsweredAgain digest date school (batch events) 90 (synced events 50 empty).db one_rejected
    ⊎ IsRolledBack digest date school (batch events) 90 (synced events 50 empty).db one_rejected
sync_attendance_events-resent_example =
    sync_attendance_events-resent digest date school (batch (scan_21 ∷ scan_22 ∷ [])) 50 90 empty
      one_rejected one_id refl one_is_rejected

sync_attendance_events-unchanged_example :
    let events = scan_21 ∷ scan_21_again ∷ [] in
    (run : EventRun) × (run.db ≡ (synced events 50 empty).db)
    × (run.results ≡ map processed_item events)
    × (synced events 90 (synced events 50 empty).db
        ≡ finish_batch (batch events) one_duplicate.session_mappings run)
sync_attendance_events-unchanged_example =
    sync_attendance_events-unchanged digest date school (batch (scan_21 ∷ scan_21_again ∷ [])) 50 90
      empty one_duplicate one_id_again refl one_is_duplicate refl

sync_attendance_events-WellFormed_example :
    WellFormed (synced (scan_21 ∷ scan_22 ∷ []) 50 empty).db.attendance
sync_attendance_events-WellFormed_example =
    sync_attendance_events-WellFormed digest date school (batch (scan_21 ∷ scan_22 ∷ [])) 50 empty
      (record { unique = tt; records_below = tt; sessions_below = tt })
