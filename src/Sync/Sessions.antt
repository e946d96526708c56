-- ===== src/Sync/Sessions.antt =====
-- How a batch finds, or creates, the server's session of each session that a client has opened
-- without a connection.
use Prim.Native.String.{String}
use text.Mathlib.Text.{◌==◌ as str_eq}
use offline_qr_school_attend.Common.{
  ℕ, suc, ◌+◌, Bool, true, false, ◌&&◌, ◌||◌, not, Option, none, some, List, [], ◌∷◌, ◌++◌, map,
  ◌==◌, leb, anyb, find?, elem, if◌then◌else◌,
}
use offline_qr_school_attend.Common.Result.{Result, throws, returns, ◌>>=◌, ◌>>◌, require}
use offline_qr_school_attend.Directory.{Directory, Enrollment, UserRole, is_admin}
use offline_qr_school_attend.Attendance.Access.{is_assignment}
use offline_qr_school_attend.Attendance.Sessions.{
  is_session_of, open_session, active_enrollments, has_repeats, enrolled_student, roster_entry,
  unmarked_records, after_rows,
}
use offline_qr_school_attend.Attendance.Types.{SessionParams}
use offline_qr_school_attend.Notifications.Absence.{is_empty, same_text}
use offline_qr_school_attend.Store.{Session, Database}
use offline_qr_school_attend.Sync.Types.{
  SyncEventPayload, SyncSessionPayload, SyncError, ServerMapping, ClientSession, SyncDb,
}

abbrev pub is_between : ℕ → ℕ → ℕ → Bool
is_between low high c = leb low c && leb c high

-- `[0-9a-f]`, in either case
abbrev pub is_hex_digit : ℕ → Bool
is_hex_digit c = is_between b'0' b'9' c || (is_between b'a' b'f' c || is_between b'A' b'F' c)

abbrev pub is_dash : ℕ → Bool
is_dash c = c == b'-'

-- `[1-5]`
abbrev pub is_version : ℕ → Bool
is_version c = is_between b'1' b'5' c

-- `[89ab]`, in either case
abbrev pub is_variant : ℕ → Bool
is_variant c = elem c (b'8' ∷ b'9' ∷ b'a' ∷ b'b' ∷ b'A' ∷ b'B' ∷ [])

abbrev pub matches : List (ℕ → Bool) → List ℕ → Bool
matches [] [] = true
matches (q ∷ qs) (c ∷ s) = q c && matches qs s
matches _ _ = false

abbrev pub hex_4 : List (ℕ → Bool)
hex_4 = is_hex_digit ∷ is_hex_digit ∷ is_hex_digit ∷ is_hex_digit ∷ []

abbrev pub hex_3 : List (ℕ → Bool)
hex_3 = is_hex_digit ∷ is_hex_digit ∷ is_hex_digit ∷ []

-- `isUuid`
unfoldable pub is_uuid : List ℕ → Bool
is_uuid text =
    matches
      (hex_4
        ++ hex_4
        ++ is_dash ∷ hex_4
        ++ is_dash ∷ is_version ∷ hex_3
        ++ is_dash ∷ is_variant ∷ hex_3
        ++ is_dash ∷ hex_4
        ++ hex_4
        ++ hex_4)
      text

-- `sessionPayloads.set(id, payload)`: a Map keeps the place of a key that it has.
abbrev pub set_payload : SyncSessionPayload → List SyncSessionPayload → List SyncSessionPayload
set_payload p [] = p ∷ []
set_payload p (q ∷ qs) =
    let rest = set_payload p qs in
    if same_text q.client_session_id p.client_session_id then p ∷ qs else q ∷ rest

abbrev pub set_payloads :
    List SyncSessionPayload → List SyncSessionPayload → List SyncSessionPayload
set_payloads [] m = m
set_payloads (p ∷ ps) m = set_payloads ps (set_payload p m)

abbrev pub or_today : ℕ → Option ℕ → ℕ
or_today today none = today
or_today today (some date) = date

-- `sessionType || 'DAILY'`
abbrev pub or_daily : String → String
or_daily type = if str_eq type "" then "DAILY" else type

abbrev pub described_payload : ℕ → SyncEventPayload → ℕ → SyncSessionPayload
described_payload today e section = record {
  client_session_id = e.client_session_id;
  class_section_id = section;
  session_date = or_today today e.metadata.session_date;
  session_type = or_daily e.metadata.session_type;
}

abbrev pub set_described :
    ℕ → SyncEventPayload → Option ℕ → List SyncSessionPayload → List SyncSessionPayload
set_described today e none m = m
set_described today e (some section) m =
    if is_empty e.client_session_id then m else set_payload (described_payload today e section) m

abbrev pub set_event_payloads :
    ℕ → List SyncEventPayload → List SyncSessionPayload → List SyncSessionPayload
set_event_payloads today [] m = m
set_event_payloads today (e ∷ es) m =
    set_event_payloads today es (set_described today e e.metadata.class_section_id m)

unfoldable pub session_payloads :
    ℕ → List SyncSessionPayload → List SyncEventPayload → List SyncSessionPayload
session_payloads today sessions events = set_event_payloads today events (set_payloads sessions [])

abbrev pub lower_case : ℕ → ℕ
lower_case c = if is_between b'A' b'Z' c then c + 32 else c

-- Two texts of a UUID, as the database compares them: without regard to case.
abbrev pub same_uuid : List ℕ → List ℕ → Bool
same_uuid s t = same_text (map lower_case s) (map lower_case t)

abbrev pub is_client_session : ℕ → List ℕ → ClientSession → Bool
is_client_session school client c = c.school_id == school && same_uuid c.client_session_id client

-- What the session of a payload is created from.
abbrev pub params_of_payload : ℕ → ℕ → UserRole → SyncSessionPayload → SessionParams
params_of_payload school actor role p = record {
  school_id = school;
  class_section_id = p.class_section_id;
  teacher_id = actor;
  session_date = p.session_date;
  session_type = or_daily p.session_type;
  actor_id = actor;
  user_role = role;
}

-- The session, its roster and its records: no entry of the audit log.
unfoldable pub insert_synced_session : SessionParams → ℕ → List Enrollment → Database → Database
unfolding unmarked_records after_rows
insert_synced_session p now es db =
    let id = db.next_id in
    record db {
      next_id = after_rows (suc id) es;
      sessions = db.sessions ++ open_session p id ∷ [];
      roster = db.roster ++ map (roster_entry id) es;
      records = db.records ++ unmarked_records p.school_id id now (suc id) es;
    }

pub record Reconciled : Type 0 where
  pub db : SyncDb
  pub session : ℕ

module _ (dir : Directory) (school actor : ℕ) (role : UserRole) (now : ℕ) where
  abbrev pub create_session : SyncSessionPayload → SyncDb → Result SyncError Reconciled
  create_session p db =
      let es = active_enrollments dir school p.class_section_id in
      do
        require (not (has_repeats (map enrolled_student es))) SyncError.unique_violation
        returns (record {
          db = record db {
            attendance =
                insert_synced_session (params_of_payload school actor role p) now es db.attendance;
            client_sessions =
                db.client_sessions
                ++ record {
                  school_id = school;
                  client_session_id = p.client_session_id;
                  session_id = db.attendance.next_id;
                }
                  ∷ [];
          };
          session = db.attendance.next_id;
        })

  -- The natural key of a session is the fallback.
  abbrev pub by_natural_key :
      SyncSessionPayload → SyncDb → Option Session → Result SyncError Reconciled
  by_natural_key p db (some s) = returns (record { db = db; session = s.id })
  by_natural_key p db none = create_session p db

  abbrev pub locate :
      SyncSessionPayload → SyncDb → Option ClientSession → Result SyncError Reconciled
  locate p db (some c) = returns (record { db = db; session = c.session_id })
  locate p db none =
      by_natural_key p db
        (find? (is_session_of (params_of_payload school actor role p)) db.attendance.sessions)

  unfoldable pub reconcile_session : SyncSessionPayload → SyncDb → Result SyncError Reconciled
  unfolding is_uuid insert_synced_session active_enrollments
  reconcile_session p db = do
    require (is_uuid p.client_session_id) SyncError.invalid_client_session_id
    require
        (is_admin role
          || anyb (is_assignment school p.class_section_id actor) dir.teacher_assignments)
        SyncError.unauthorized_teacher_not_assigned
    locate p db (find? (is_client_session school p.client_session_id) db.client_sessions)

-- The sessions that were reconciled before an error stay.
pub record Reconciliation : Type 0 where
  pub db : SyncDb
  pub mappings : Result SyncError (List ServerMapping)

abbrev pub add_mapping : List ℕ → ℕ → Reconciliation → Reconciliation
add_mapping client session rest = record {
  db = rest.db;
  mappings = rest.mappings >>= λ ms.
      returns (record { client_session_id = client; server_session_id = session } ∷ ms);
}

module _ (dir : Directory) (school actor : ℕ) (role : UserRole) (now : ℕ) where
  unfoldable pub reconcile_sessions : List SyncSessionPayload → SyncDb → Reconciliation
  unfolding reconcile_session
  reconcile_sessions [] db = record { db = db; mappings = returns [] }
  reconcile_sessions (p ∷ ps) db = elim (reconcile_session dir school actor role now p db) [
    | throws e ↦ record { db = db; mappings = throws e }
    | returns r ↦ add_mapping p.client_session_id r.session (reconcile_sessions ps r.db)
  ]
