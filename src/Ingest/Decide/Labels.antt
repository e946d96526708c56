-- ===== src/Ingest/Decide/Labels.antt =====
-- `decisionLabelKey` of src/services/rfid/ingest/decide.ts.
use Prim.Native.String.{String}
use offline_qr_school_attend.Ingest.Types.{Decision}

unfoldable pub decision_label_key : Decision → String
decision_label_key Decision.accepted = "rfid.decision.accepted"
decision_label_key Decision.already_present = "rfid.decision.alreadyPresent"
decision_label_key Decision.duplicate_in_batch = "rfid.decision.duplicate"
decision_label_key Decision.duplicate_debounced = "rfid.decision.duplicate"
decision_label_key Decision.malformed_read = "rfid.decision.malformed"
decision_label_key Decision.future_skew = "rfid.decision.clockIssue"
decision_label_key Decision.wrong_school_day = "rfid.decision.clockIssue"
decision_label_key Decision.unregistered_card = "rfid.decision.unregistered"
decision_label_key Decision.suspended_card = "rfid.decision.suspended"
decision_label_key Decision.credential_orphaned = "rfid.decision.orphaned"
decision_label_key Decision.student_inactive = "rfid.decision.studentInactive"
decision_label_key Decision.not_enrolled = "rfid.decision.notEnrolled"
decision_label_key Decision.school_closed = "rfid.decision.schoolClosed"
decision_label_key Decision.session_finalized = "rfid.decision.sessionFinalized"
decision_label_key Decision.no_teacher_assigned = "rfid.decision.noTeacher"
decision_label_key Decision.no_active_session = "rfid.decision.noActiveSession"
decision_label_key Decision.manual_override_preserved = "rfid.decision.manualPreserved"
