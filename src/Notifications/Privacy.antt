-- ===== src/Notifications/Privacy.antt =====
-- The consents of guardians, of src/services/privacy/consent.ts.
use offline_qr_school_attend.Common.{
  ℕ, Bool, true, false, ◌&&◌, not, Option, none, some, is_some, List, [], ◌∷◌, ◌++◌, map,
  if◌then◌else◌, ltb, ◌==◌, filterb,
}

pub data ConsentPurpose : Type 0 where
  rfid_attendance : ConsentPurpose
  absence_sms : ConsentPurpose
  photo : ConsentPurpose

abbrev pub same_purpose : ConsentPurpose → ConsentPurpose → Bool
same_purpose ConsentPurpose.rfid_attendance ConsentPurpose.rfid_attendance = true
same_purpose ConsentPurpose.absence_sms ConsentPurpose.absence_sms = true
same_purpose ConsentPurpose.photo ConsentPurpose.photo = true
same_purpose _ _ = false

pub record GuardianConsent : Type 0 where
  pub school_id : ℕ
  pub student_id : ℕ
  pub purpose : ConsentPurpose
  pub granted : Bool
  pub recorded_at : ℕ
  pub withdrawn_at : Option ℕ

-- The school, the student and the purpose that a call is about.
pub record ConsentKey : Type 0 where
  pub school_id : ℕ
  pub student_id : ℕ
  pub purpose : ConsentPurpose

abbrev pub is_consent_of : ConsentKey → GuardianConsent → Bool
is_consent_of key row =
    row.school_id == key.school_id
    && (row.student_id == key.student_id && same_purpose row.purpose key.purpose)

-- `.orderBy(desc(recordedAt)).limit(1)`
abbrev pub later_row : GuardianConsent → Option GuardianConsent → Option GuardianConsent
later_row row none = some row
later_row row (some other) = if ltb row.recorded_at other.recorded_at then some other else some row

abbrev pub latest_row : List GuardianConsent → Option GuardianConsent
latest_row [] = none
latest_row (row ∷ rows) = later_row row (latest_row rows)

abbrev pub is_granted : Option GuardianConsent → Bool
is_granted none = true
is_granted (some row) = if is_some row.withdrawn_at then false else row.granted

unfoldable pub has_consent : ConsentKey → List GuardianConsent → Bool
has_consent key rows = is_granted (latest_row (filterb (is_consent_of key) rows))

unfoldable pub record_consent : ConsentKey → Bool → ℕ → List GuardianConsent → List GuardianConsent
record_consent key granted now rows =
    rows
    ++ record {
      school_id = key.school_id;
      student_id = key.student_id;
      purpose = key.purpose;
      granted = granted;
      recorded_at = now;
      withdrawn_at = none;
    }
      ∷ []

abbrev pub withdraw_row : ConsentKey → ℕ → GuardianConsent → GuardianConsent
withdraw_row key now row =
    if is_consent_of key row && not (is_some row.withdrawn_at)
    then record row { withdrawn_at = some now }
    else row

unfoldable pub withdraw_consent : ConsentKey → ℕ → List GuardianConsent → List GuardianConsent
withdraw_consent key now rows = map (withdraw_row key now) rows
