-- ===== src/Ingest/Decide.antt =====
-- src/services/rfid/ingest/decide.ts: the pure decision about one read.
pub mod Labels
pub mod Explained
use Prim.Native.String.{String}
use text.Mathlib.Text.{◌==◌ as str_eq}
use offline_qr_school_attend.Common.{
  ℕ, ◌≡◌, refl, Bool, true, false, ◌&&◌, Option, none, some, is_some, if◌then◌else◌, not, elem,
}
use offline_qr_school_attend.Common.Maps.{lookup, has}
use offline_qr_school_attend.Ingest.Types.{
  Decision, Freshness, ReviewFlag, TimeSource, NormalizedRead, IngestContext, Outcome,
  CredentialRow, StudentRow, EnrollmentRow, SessionRow, is_finalized,
}

-- `reviewFlagFor`, on the two fields that it reads.
unfoldable pub review_flag_for : Freshness → TimeSource → Option ReviewFlag
review_flag_for Freshness.late_buffered source = some ReviewFlag.late_buffered
review_flag_for _ TimeSource.server = some ReviewFlag.server_time
review_flag_for _ TimeSource.reader = none

-- An early return, or the value that the next statement uses.
pub data Early (A : Type 0) : Type 0 where
  stop : Outcome → Early A
  go : A → Early A

infixl 5 ◌>>=◌ ◌>>◌
abbrev ◌>>=◌ : {A B : Type 0} → Early A → (A → Early B) → Early B
stop o >>= k = stop o
go a >>= k = k a

abbrev ◌>>◌ : {B : Type 0} → Early (Unit {0}) → Early B → Early B
m >> k = m >>= λ _. k

abbrev stop_if : Bool → Outcome → Early (Unit {0})
stop_if true o = stop o
stop_if false o = go tt

abbrev or_stop : {A : Type 0} → Option A → Outcome → Early A
or_stop none o = stop o
or_stop (some a) o = go a

abbrev settle : Early Outcome → Outcome
settle (stop o) = o
settle (go o) = o

-- A property of the result is proved return by return.
settle-stop_if :
    (P : Outcome → Type 0) (b : Bool) (o : Outcome) (k : Unit {0} → Early Outcome)
    → (b ≡ true → P o)
    → (b ≡ false → P (settle (k tt)))
    → P (settle (stop_if b o >>= k))
settle-stop_if P true o k stopped goes = stopped refl
settle-stop_if P false o k stopped goes = goes refl

settle-or_stop :
    {A : Type 0} (P : Outcome → Type 0) (m : Option A) (o : Outcome) (k : A → Early Outcome)
    → (m ≡ none → P o)
    → ((a : A) → m ≡ some a → P (settle (k a)))
    → P (settle (or_stop m o >>= k))
settle-or_stop P none o k stopped goes = stopped refl
settle-or_stop P (some a) o k stopped goes = goes a refl

abbrev is_future_skew : Freshness → Bool
is_future_skew Freshness.future_skew = true
is_future_skew _ = false

abbrev is_wrong_school_day : Freshness → Bool
is_wrong_school_day Freshness.wrong_school_day = true
is_wrong_school_day _ = false

-- `{ ...base, decision }`
abbrev pub reject : NormalizedRead → Decision → Outcome
reject read decision = record {
  index = read.index;
  decision = decision;
  read = some read;
  student_id = none;
  class_section_id = none;
  credential_id = none;
  needs_session = false;
  review_flag = none;
}

abbrev with_credential : ℕ → Outcome → Outcome
with_credential c o = record o { credential_id = some c }

-- `...ids`
abbrev with_ids : ℕ → ℕ → Outcome → Outcome
with_ids c s o = record o { credential_id = some c; student_id = some s }

-- `...withSection`
abbrev with_section : ℕ → ℕ → ℕ → Outcome → Outcome
with_section c s e o = record o {
  credential_id = some c;
  student_id = some s;
  class_section_id = some e;
}

abbrev session_is_finalized : Option SessionRow → Bool
session_is_finalized none = false
session_is_finalized (some s) = is_finalized s.status

unfoldable pub decide_read : NormalizedRead → IngestContext → Outcome
unfolding review_flag_for
decide_read read ctx = settle do
  stop_if (is_future_skew read.freshness) (reject read Decision.future_skew)
  stop_if (is_wrong_school_day read.freshness) (reject read Decision.wrong_school_day)
  stop_if (elem read.epc_digest ctx.debounced) (reject read Decision.duplicate_debounced)
  cred ←
      or_stop (lookup read.epc_digest ctx.creds_by_digest) (reject read Decision.unregistered_card)
  stop_if (not (str_eq cred.status "ACTIVE"))
      (with_credential cred.id (reject read Decision.suspended_card))
  student ←
      or_stop (lookup cred.student_id ctx.students_by_id)
        (with_credential cred.id (reject read Decision.credential_orphaned))
  let ids = with_ids cred.id student.id
  stop_if (not (str_eq student.status "ACTIVE")) (ids (reject read Decision.student_inactive))
  enr ←
      or_stop (lookup student.id ctx.enrollment_by_student)
        (ids (reject read Decision.not_enrolled))
  let section = with_section cred.id student.id enr.class_section_id
  stop_if (not ctx.is_school_day) (section (reject read Decision.school_closed))
  let session = lookup enr.class_section_id ctx.session_by_section
  stop_if (session_is_finalized session) (section (reject read Decision.session_finalized))
  stop_if (not (is_some session) && not (has enr.class_section_id ctx.teacher_by_section))
      (section (reject read Decision.no_teacher_assigned))
  let o = section (reject read Decision.accepted)
  go (record o {
    needs_session = not (is_some session);
    review_flag = review_flag_for read.freshness read.time_source;
  })
