-- ===== src/Qr/Defs.antt =====
-- The operations of src/services/qrService.ts on the table `qr_credentials`.
use offline_qr_school_attend.Common.{
  ℕ, suc, Bool, true, false, ◌&&◌, Option, none, some, is_some, List, [], ◌∷◌, ◌++◌, ◌==◌, ltb,
  find?, anyb, ◌||◌, if◌then◌else◌,
}

pub data QrStatus : Type 0 where
  active revoked : QrStatus

pub record QrRow : Type 0 where
  pub school_id : ℕ
  pub student_id : ℕ
  pub token_digest : ℕ
  pub version : ℕ
  pub status : QrStatus
  pub issued_at : ℕ
  pub revoked_at : Option ℕ

abbrev pub is_in_force : QrStatus → Bool
is_in_force QrStatus.active = true
is_in_force QrStatus.revoked = false

abbrev pub is_qr_of : ℕ → ℕ → QrRow → Bool
is_qr_of school student r = r.school_id == school && r.student_id == student

abbrev pub is_active_of : ℕ → ℕ → QrRow → Bool
is_active_of school student r = is_qr_of school student r && is_in_force r.status

-- The largest version of a student, 0 where there is no row: `orderBy(desc(version))`, the first.
abbrev pub latest_version : ℕ → ℕ → List QrRow → ℕ
latest_version school student [] = 0
latest_version school student (r ∷ rs) =
    let rest = latest_version school student rs in
    if is_qr_of school student r && ltb rest r.version then r.version else rest

unfoldable pub revoke_qr_credential : ℕ → ℕ → ℕ → List QrRow → List QrRow
revoke_qr_credential now school student [] = []
revoke_qr_credential now school student (r ∷ rs) =
    (if is_active_of school student r
      then record r { status = QrStatus.revoked; revoked_at = some now }
      else r)
    ∷ revoke_qr_credential now school student rs

-- What comes after a statement that the database may refuse.
abbrev pub and_then : {A B : Type 0} → Option A → (A → Option B) → Option B
and_then none k = none
and_then (some a) k = k a

module _ (sha256 : List ℕ → ℕ) where
  abbrev pub new_qr : ℕ → ℕ → ℕ → List ℕ → ℕ → QrRow
  new_qr now school student raw_token version = record {
    school_id = school;
    student_id = student;
    token_digest = sha256 raw_token;
    version = version;
    status = QrStatus.active;
    issued_at = now;
    revoked_at = none;
  }

  abbrev pub has_digest : ℕ → ℕ → QrRow → Bool
  has_digest school digest r = r.school_id == school && r.token_digest == digest

  -- The unique indexes on the active rows of a student, and on the digests of a school.
  abbrev pub is_refused : ℕ → ℕ → ℕ → List QrRow → Bool
  is_refused school student digest rows =
      is_some (find? (is_active_of school student) rows) || anyb (has_digest school digest) rows

  -- `none` is the error of the database.
  unfoldable pub create_qr_credential : ℕ → ℕ → ℕ → List ℕ → List QrRow → Option (List QrRow)
  create_qr_credential now school student raw_token rows =
      if is_refused school student (sha256 raw_token) rows
      then none
      else some (
          rows
          ++ new_qr now school student raw_token (suc (latest_version school student rows)) ∷ [])

  unfoldable pub reissue_qr_credential : ℕ → ℕ → ℕ → List ℕ → List QrRow → Option (List QrRow)
  unfolding create_qr_credential revoke_qr_credential
  reissue_qr_credential now school student raw_token rows =
      create_qr_credential now school student raw_token
        (revoke_qr_credential now school student rows)

  abbrev pub is_active_token : ℕ → ℕ → QrRow → Bool
  is_active_token school digest r = has_digest school digest r && is_in_force r.status

  -- The credential that a token proves, if it is valid.
  unfoldable pub verify_qr_token : ℕ → List ℕ → List QrRow → Option QrRow
  verify_qr_token school raw_token rows = find? (is_active_token school (sha256 raw_token)) rows

  -- One round of the loop, whose token is drawn for the position of the student.
  abbrev pub issue_missing : ℕ → ℕ → ℕ → List ℕ → List QrRow → Option (List QrRow)
  issue_missing now school student raw_token rows =
      if is_some (find? (is_active_of school student) rows)
      then some rows
      else create_qr_credential now school student raw_token rows

  -- `bulkIssueQrsForClass`, on the active students of the class.
  unfoldable pub bulk_issue_qrs :
      ℕ → ℕ → (ℕ → List ℕ) → ℕ → List ℕ → List QrRow → Option (List QrRow)
  unfolding create_qr_credential
  bulk_issue_qrs now school random k [] rows = some rows
  bulk_issue_qrs now school random k (student ∷ students) rows =
      and_then (issue_missing now school student (random k) rows)
        (λ issued. bulk_issue_qrs now school random (suc k) students issued)
