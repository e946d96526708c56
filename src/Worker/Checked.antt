-- ===== src/Worker/Checked.antt =====
-- What the guards of a job let through.
use Prim.Native.Char.{code}
use Prim.Native.String.{String}
use mathlib.Core.Path.{subst}
use text.Mathlib.TextEquality.{eq_iff}
use offline_qr_school_attend.Common.{
  List, [], ◌∷◌, ◌<◌, ◌==◌, find?, ap, sym, ◌∙◌, if◌then◌else◌, ℕ, ◌≤◌, ◌≡◌, refl, Bool, true,
  false, ◌&&◌, ◌||◌, not, Option, none, some, is_some, arith,
}
use offline_qr_school_attend.Common.Result.{Result, returns, ◌>>=◌, require, require-returns}
use offline_qr_school_attend.Notifications.Absence.{is_empty, same_text}
use offline_qr_school_attend.Notifications.Jobs.{is_absence, is_absent}
use offline_qr_school_attend.Notifications.Privacy.{ConsentPurpose, has_consent}
use offline_qr_school_attend.Store.{JobKind, AttendanceStatus, AttendanceRecord}
use offline_qr_school_attend.Worker.Guards.{
  Stop, check_job, consent_granted, effective_settings, has_changed, is_too_long, lacks_dlt, marker,
  require_none, segments_of_body, is_cleared, linked_is_cleared,
}
use offline_qr_school_attend.Worker.Types.{
  QueuedJob, WorkerSettings, Surroundings, SmsProvider, is_active, FailureReason,
}

-- The code units of an ASCII text.
abbrev pub codes : String → List ℕ
codes String.[] = []
codes (String.◌∷◌ c s) = code c ∷ codes s

-- What the guards let through, in the words of the tables.
pub record Checked (w : Surroundings) (provider : SmsProvider) (settings : Option WorkerSettings)
    (j : QueuedJob) : Type 0 where
  pub school_active : w.school_status j.school_id ≡ some "ACTIVE"
  pub has_settings : w.production ≡ true → is_some settings ≡ true
  pub sms_enabled : (s : WorkerSettings) → settings ≡ some s → s.sms_enabled ≡ true
  pub still_absent :
      j.kind ≡ JobKind.absence
      → (id : ℕ) (r : AttendanceRecord) → j.attendance_record_id ≡ some id
      → find? (λ (x : AttendanceRecord). x.id == id) w.records ≡ some r
      → r.status ≡ AttendanceStatus.absent
  pub consented :
      has_consent
        (record {
          school_id = j.school_id;
          student_id = j.student_id;
          purpose = ConsentPurpose.absence_sms;
        })
        w.consents
      ≡ true
  pub not_opted_out : same_text j.message_body (codes "GUARDIAN_OPTED_OUT") ≡ false
  pub has_phone : same_text j.message_body (codes "MISSING_GUARDIAN_PHONE") ≡ false
  pub allowed : same_text j.message_body (codes "PHONE_NOT_IN_ALLOWLIST") ≡ false
  pub has_dlt :
      w.production ≡ true
      → provider.is_fake ≡ false
      → (s : WorkerSettings) → settings ≡ some s
      → (is_empty s.dlt_principal_entity_id ≡ false) × (is_empty s.dlt_header ≡ false)
  pub within_limit :
      (s : WorkerSettings)
      → settings ≡ some s
      → 0 < s.max_segments_per_message
      → segments_of_body j ≤ s.max_segments_per_message

require_none-returns :
    {B : Type 0} (o : Option FailureReason) (k : Unit {0} → Result Stop B) (b : B)
    → (require_none o >>= k) ≡ returns b
    → (o ≡ none) × (k tt ≡ returns b)
require_none-returns none k b h = (refl, h)
require_none-returns (some r) k b h = absurd (cc)

of_not : (b : Bool) → not b ≡ true → b ≡ false
of_not true h = cc
of_not false h = refl

require_last : (b : Bool) (e : Stop) → require b e ≡ returns tt → b ≡ true
require_last true e h = refl
require_last false e h = absurd (cc)

active_school : (o : Option String) → is_active o ≡ true → o ≡ some "ACTIVE"
active_school none h = absurd (cc)
active_school (some s) h = ap some ((eq_iff s "ACTIVE").0 h)

present_settings :
    (production : Bool) (o : Option WorkerSettings)
    → (is_some o || not production) ≡ true
    → production ≡ true
    → is_some o ≡ true
present_settings production o h k = ground (arith, h, k)

absent_status : (s : AttendanceStatus) → is_absent s ≡ true → s ≡ AttendanceStatus.absent
absent_status AttendanceStatus.absent h = refl
absent_status AttendanceStatus.unmarked h = absurd (cc)
absent_status AttendanceStatus.present h = absurd (cc)
absent_status AttendanceStatus.late h = absurd (cc)
absent_status AttendanceStatus.excused h = absurd (cc)
absent_status AttendanceStatus.leave h = absurd (cc)

uncleared_status :
    (o : Option AttendanceRecord) (r : AttendanceRecord)
    → is_cleared o ≡ false
    → o ≡ some r
    → r.status ≡ AttendanceStatus.absent
uncleared_status none r h e = absurd (cc)
uncleared_status (some x) r h e =
    let same : x ≡ r = cc in
    ap (λ (y : AttendanceRecord). y.status) (sym same) ∙ absent_status x.status (ground (arith, h))

still_absent_of :
    (kind : JobKind) (link : Option ℕ) (records : List AttendanceRecord)
    → (is_absence kind && linked_is_cleared link records) ≡ false
    → kind ≡ JobKind.absence
    → (id : ℕ) (r : AttendanceRecord) → link ≡ some id
    → find? (λ (x : AttendanceRecord). x.id == id) records ≡ some r
    → r.status ≡ AttendanceStatus.absent
still_absent_of JobKind.correction link records h k id r e f = absurd (cc)
still_absent_of JobKind.absence none records h k id r e f = absurd (cc)
still_absent_of JobKind.absence (some i) records h k id r e f =
    let same : i ≡ id = cc in
    uncleared_status (find? (λ (x : AttendanceRecord). x.id == i) records) r h
      (ap (λ n. find? (λ (x : AttendanceRecord). x.id == n) records) same ∙ f)

marker-none :
    (body : List ℕ)
    → marker body ≡ none
    → (same_text body (codes "GUARDIAN_OPTED_OUT") ≡ false)
      × (same_text body (codes "MISSING_GUARDIAN_PHONE") ≡ false)
      × (same_text body (codes "PHONE_NOT_IN_ALLOWLIST") ≡ false)
unfolding marker
marker-none body h =
    tests (same_text body (codes "GUARDIAN_OPTED_OUT"))
      (same_text body (codes "MISSING_GUARDIAN_PHONE"))
      (same_text body (codes "PHONE_NOT_IN_ALLOWLIST")) h
  where
    tests :
        (a b c : Bool)
        → (let o : Option FailureReason =
              if a
              then some FailureReason.guardian_opted_out
              else (if b
                  then some FailureReason.missing_guardian_phone
                  else (if c then some FailureReason.phone_not_in_allowlist else none)) in
            o ≡ none)
        → (a ≡ false) × (b ≡ false) × (c ≡ false)
    tests true b c e = absurd (cc)
    tests false true c e = absurd (cc)
    tests false false true e = absurd (cc)
    tests false false false e = (refl, refl, refl)

dlt_of :
    (production fake : Bool) (o : Option WorkerSettings)
    → (production && (not fake && lacks_dlt (effective_settings o))) ≡ false
    → production ≡ true
    → fake ≡ false
    → (s : WorkerSettings) → o ≡ some s
    → (is_empty s.dlt_principal_entity_id ≡ false) × (is_empty s.dlt_header ≡ false)
dlt_of production fake none h p k s e = absurd (cc)
dlt_of production fake (some x) h p k s e =
    let same : x ≡ s = cc in
    subst
      (λ (y : WorkerSettings).
        (is_empty y.dlt_principal_entity_id ≡ false) × (is_empty y.dlt_header ≡ false))
      same (ground (arith, h, p, k), ground (arith, h, p, k))

limit_of :
    (o : Option WorkerSettings) (n : ℕ)
    → is_too_long (effective_settings o) n ≡ false
    → (s : WorkerSettings) → o ≡ some s
    → 0 < s.max_segments_per_message
    → n ≤ s.max_segments_per_message
limit_of none n h s e = absurd (cc)
limit_of (some x) n h s e =
    let same : x ≡ s = cc in
    subst (λ (y : WorkerSettings). 0 < y.max_segments_per_message → n ≤ y.max_segments_per_message)
      same (λ p. ground (arith, h, p))

enabled_of :
    (o : Option WorkerSettings)
    → (effective_settings o).sms_enabled ≡ true
    → (s : WorkerSettings) → o ≡ some s
    → s.sms_enabled ≡ true
enabled_of none h s e = absurd (cc)
enabled_of (some x) h s e =
    let same : x ≡ s = cc in ap (λ (y : WorkerSettings). y.sms_enabled) (sym same) ∙ h

pub check_job-Checked :
    (w : Surroundings) (provider : SmsProvider) (settings : Option WorkerSettings) (j : QueuedJob)
    → check_job w provider settings j ≡ returns tt
    → Checked w provider settings j
unfolding check_job has_changed consent_granted
check_job-Checked w provider settings j h =
    let (a, h1) = require-returns (is_active (w.school_status j.school_id)) _ _ _ h in
    let (b, h2) = require-returns (is_some settings || not w.production) _ _ _ h1 in
    let (c, h3) = require-returns (effective_settings settings).sms_enabled _ _ _ h2 in
    let (d, h4) = require-returns (not (has_changed w.records j)) _ _ _ h3 in
    let (e, h5) = require-returns (consent_granted w j) _ _ _ h4 in
    let (f, h6) = require_none-returns (marker j.message_body) _ _ h5 in
    let dlt = w.production && (not provider.is_fake && lacks_dlt (effective_settings settings)) in
    let (g, h7) = require-returns (not dlt) _ _ _ h6 in
    let (opted, phone, allowed) = marker-none j.message_body f in
    record {
      school_active = active_school (w.school_status j.school_id) a;
      has_settings = present_settings w.production settings b;
      sms_enabled = enabled_of settings c;
      still_absent = still_absent_of j.kind j.attendance_record_id w.records (of_not _ d);
      consented = e;
      not_opted_out = opted;
      has_phone = phone;
      allowed = allowed;
      has_dlt = dlt_of w.production provider.is_fake settings (of_not _ g);
      within_limit = limit_of settings (segments_of_body j) (of_not _ (require_last _ _ h7));
    }
