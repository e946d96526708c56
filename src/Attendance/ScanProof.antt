-- ===== src/Attendance/ScanProof.antt =====
-- Whose mark `processQRCode` takes: what a call that logs an event has proved of its student.
use text.Mathlib.Text.{◌==◌ as str_eq}
use text.Mathlib.TextEquality.{eq_iff}
use mathlib.Core.Path.{subst}
use offline_qr_school_attend.Common.{
  ℕ, ◌≡◌, ◌≢◌, sym, ap, Bool, true, ◌||◌, not, Option, none, some, List, ◌==◌, find?, anyb,
  if◌then◌else◌, arith, ◌⊎◌, inl, inr, Bool-cases,
}
use offline_qr_school_attend.Common.Result.{
  returns, or_throw, bind-returns, require-returns, or_throw-returns,
}
use offline_qr_school_attend.Directory.{Directory, QrCredential}
use offline_qr_school_attend.Ingest.Types.{is_finalized}
use offline_qr_school_attend.Notifications.Absence.{is_empty}
use offline_qr_school_attend.Attendance.Scan.{
  is_manual_source, is_student_of, is_credential_of, resolve_token, resolve_student, scan_target,
  scan_once, is_same_event, process_qr_code, Scanned,
}
use offline_qr_school_attend.Attendance.ScanLog.{Logs, returns-injective}
use offline_qr_school_attend.Attendance.ScanOnce.{scan_new-Logs, process_qr_code-Entered}
use offline_qr_school_attend.Attendance.Tables.{is_on_roster}
use offline_qr_school_attend.Attendance.Types.{Failure, ScanParams}
use offline_qr_school_attend.Store.{AttendanceEvent, Database}

module _ (sha256 : List ℕ → ℕ) (dir : Directory) (p : ScanParams) where
  -- The token is that of a credential of the student, of this school, which is not revoked.
  pub record HasCredential (student : ℕ) : Type 0 where
    pub credential : QrCredential
    pub known : find? (is_credential_of sha256 dir p.raw_token) dir.qr_credentials ≡ some credential
    pub of_school : credential.school_id ≡ p.school_id
    pub not_revoked : credential.status ≢ "REVOKED"
    pub of_student : credential.student_id ≡ student

  -- Only a manual call may name the student itself.
  pub record IsNamed (student : ℕ) : Type 0 where
    pub no_token : is_empty p.raw_token ≡ true
    pub manual : is_manual_source p.source ≡ true
    pub named : p.student_id ≡ some student

  pub record Proven (db : Database) (student : ℕ) : Type 0 where
    pub proof : HasCredential student ⊎ IsNamed student
    pub on_roster : anyb (is_on_roster p.session_id student) db.roster ≡ true
    pub in_school : anyb (is_student_of p.school_id student) dir.students ≡ true

  resolve_token-HasCredential :
      (student : ℕ) → resolve_token sha256 dir p ≡ returns student → HasCredential student
  resolve_token-HasCredential student h =
      let (c, known, h1) =
        or_throw-returns (find? (is_credential_of sha256 dir p.raw_token) dir.qr_credentials) _ _ _
          h in
      let (school, h2) = require-returns (c.school_id == p.school_id) _ _ _ h1 in
      let (active, h3) = require-returns (not (str_eq c.status "REVOKED")) _ _ _ h2 in
      record {
        credential = c;
        known = known;
        of_school = ground (arith, school);
        not_revoked = ground (arith, eq_iff c.status "REVOKED", active);
        of_student = returns-injective c.student_id student h3;
      }

  named :
      (o : Option ℕ) (student : ℕ) (e : Failure) → or_throw o e ≡ returns student → o ≡ some student
  named none student e h = absurd (cc)
  named (some x) student e h = ap (λ y. some y) (returns-injective x student h)

  resolve_student-proof :
      (student : ℕ)
      → (not (is_empty p.raw_token) || is_manual_source p.source) ≡ true
      → resolve_student sha256 dir p ≡ returns student
      → HasCredential student ⊎ IsNamed student
  resolve_student-proof student guard h = elim (Bool-cases (is_empty p.raw_token)) [
    | inl missing ↦ inr (record {
      no_token = missing;
      manual = ground (arith, guard, missing);
      named = named p.student_id student Failure.missing_student_identifier (
          subst
            (λ b.
              (if b
                then or_throw p.student_id Failure.missing_student_identifier
                else resolve_token sha256 dir p)
              ≡ returns student)
            missing h);
    })
    | inr given ↦ inl (
        resolve_token-HasCredential student (
          subst
            (λ b.
              (if b
                then or_throw p.student_id Failure.missing_student_identifier
                else resolve_token sha256 dir p)
              ≡ returns student)
            given h))
  ]

  scan_target-Proven :
      (db : Database) (student : ℕ)
      → scan_target sha256 dir p db ≡ returns student
      → Proven db student
  scan_target-Proven db student h =
      let (guard, h1) =
        require-returns (not (is_empty p.raw_token) || is_manual_source p.source) _ _ _ h in
      let (found, resolved, h2) = bind-returns (resolve_student sha256 dir p) _ _ h1 in
      let (listed, h3) =
        require-returns (anyb (is_on_roster p.session_id found) db.roster) _ _ _ h2 in
      let (known, h4) =
        require-returns (anyb (is_student_of p.school_id found) dir.students) _ _ _ h3 in
      subst (Proven db) (returns-injective found student h4) (record {
        proof = resolve_student-proof found guard resolved;
        on_roster = listed;
        in_school = known;
      })

  scan_once-proof :
      (now : ℕ) (locked : Bool) (o : Option AttendanceEvent) (db : Database) (s : Scanned)
      → scan_once sha256 dir p now locked o db ≡ returns s
      → (s.db ≡ db) ⊎ ((student : ℕ) × Proven db student × Logs p student db s.db)
  scan_once-proof now locked (some e) db s h =
      inl (ap (λ (x : Scanned). x.db) (sym (returns-injective _ _ h)))
  scan_once-proof now locked none db s h =
      let (student, target, l) = scan_new-Logs sha256 dir p now locked db s h in
      inr (student, scan_target-Proven db student target, l)

  -- A call of `processQRCode` that succeeds changes nothing, or logs one event at the end of the
  -- log, for a student on the roster of the session and in the school; that student's credential,
  -- of this school and not revoked, is what the token proves, or a manual call without a token has
  -- named them.
  pub process_qr_code-proof :
      (now : ℕ) (db : Database) (s : Scanned)
      → process_qr_code sha256 dir p now db ≡ returns s
      → (s.db ≡ db) ⊎ ((student : ℕ) × Proven db student × Logs p student db s.db)
  process_qr_code-proof now db s h =
      let c = process_qr_code-Entered sha256 dir p now db s h in
      scan_once-proof now (is_finalized c.session.status) (find? (is_same_event p) db.events) db s
        c.once
