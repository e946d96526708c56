-- ===== src/Ingest/Write/Sessions.antt =====
-- Step A of src/services/rfid/ingest/write.ts, on the tables of `Store`. The outcomes of a batch are
-- objects that the stages change in place; `accepted` holds the same objects, so a loop over it is a
-- pass over the outcomes that leaves the others alone, and an object is known by its position in the
-- payload, its `index`.
use text.Mathlib.Text.{◌==◌ as str_eq}
use offline_qr_school_attend.Common.{
  ℕ, suc, Bool, ◌&&◌, not, Option, none, some, List, [], ◌∷◌, ◌++◌, map, ◌==◌, elem, filterb, anyb,
  if◌then◌else◌,
}
use offline_qr_school_attend.Common.Maps.{Map, lookup, insert, has}
use offline_qr_school_attend.Ingest.Types.{
  Decision, is_accepted, NormalizedRead, SessionStatus, is_finalized, SessionRow, IngestContext,
  Outcome,
}
use offline_qr_school_attend.Store.{Session, Database}

-- `o.classSectionId!`, `o.studentId!` and `o.read!.readAt`: `decideRead` sets them in every outcome
-- that it accepts.
abbrev pub or_zero : Option ℕ → ℕ
or_zero none = 0
or_zero (some n) = n

abbrev pub section_of : Outcome → ℕ
section_of o = or_zero o.class_section_id

abbrev pub student_of : Outcome → ℕ
student_of o = or_zero o.student_id

abbrev pub read_time : Option NormalizedRead → ℕ
read_time none = 0
read_time (some r) = r.read_at

abbrev pub seen_at : Outcome → ℕ
seen_at o = read_time o.read

-- `o.decision = d`
abbrev pub with_decision : Decision → Outcome → Outcome
with_decision d o = record o { decision = d }

-- `new Map([...ctx.sessionBySection].map(([k, v]) => [k, v.id]))`
abbrev pub session_ids : Map SessionRow → Map ℕ
session_ids [] = []
session_ids ((k, s) ∷ m) = (k, s.id) ∷ session_ids m

-- `Array.from(new Set(xs))`
abbrev pub distinct : List ℕ → List ℕ
distinct [] = []
distinct (x ∷ xs) = x ∷ filterb (λ y. not (x == y)) (distinct xs)

-- The sections that need a session.
unfoldable pub missing_sections : List Outcome → List ℕ
missing_sections outcomes =
    distinct (map section_of (filterb (λ o. is_accepted o.decision && o.needs_session) outcomes))

-- The unique key of `attendance_sessions`.
abbrev pub is_gate_session : ℕ → ℕ → ℕ → Session → Bool
is_gate_session school section date s =
    s.school_id == school
    && s.class_section_id == section
    && s.session_date == date
    && str_eq s.session_type "GATE_ARRIVAL"

abbrev pub new_session : IngestContext → ℕ → ℕ → Session
new_session ctx section id = record {
  id = id;
  school_id = ctx.school_id;
  class_section_id = section;
  teacher_id = or_zero (lookup section ctx.teacher_by_section);
  session_date = ctx.school_date;
  session_type = "GATE_ARRIVAL";
  status = SessionStatus.opened;
  finalized_at = none;
  finalized_by = none;
}

-- `insert … onConflictDoNothing`, one row after the other.
unfoldable pub insert_session : IngestContext → ℕ → Database → Database
insert_session ctx section db =
    if anyb (is_gate_session ctx.school_id section ctx.school_date) db.sessions
    then db
    else record db {
      next_id = suc db.next_id;
      sessions = db.sessions ++ new_session ctx section db.next_id ∷ [];
    }

unfoldable pub insert_sessions : IngestContext → List ℕ → Database → Database
unfolding insert_session
insert_sessions ctx [] db = db
insert_sessions ctx (x ∷ xs) db = insert_sessions ctx xs (insert_session ctx x db)

-- The rows that are selected once more.
unfoldable pub gate_rows : IngestContext → List ℕ → List Session → List Session
gate_rows ctx missing sessions =
    filterb
      (λ s.
        elem s.class_section_id missing
        && is_gate_session ctx.school_id s.class_section_id ctx.school_date s)
      sessions

-- A session that was finalized in between: its reads are downgraded.
abbrev pub downgrade : ℕ → Outcome → Outcome
downgrade section o =
    if is_accepted o.decision && section_of o == section
    then with_decision Decision.session_finalized o
    else o

-- One round of the loop over those rows, and the loop.
abbrev pub settle_row : Session → Map ℕ × List Outcome → Map ℕ × List Outcome
settle_row r (ids, outcomes) =
    if is_finalized r.status
    then (ids, map (downgrade r.class_section_id) outcomes)
    else (insert r.class_section_id r.id ids, outcomes)

unfoldable pub settle_rows : List Session → Map ℕ × List Outcome → Map ℕ × List Outcome
settle_rows [] acc = acc
settle_rows (r ∷ rs) acc = settle_rows rs (settle_row r acc)

abbrev pub without_session : Map ℕ → Outcome → Outcome
without_session ids o =
    if is_accepted o.decision && not (has (section_of o) ids)
    then with_decision Decision.no_active_session o
    else o

-- Step A: the identifier of each section's session, and the outcomes downgraded.
unfoldable pub settle_sessions : IngestContext → List Outcome → Database → Map ℕ × List Outcome
unfolding gate_rows settle_rows missing_sections
settle_sessions ctx outcomes db =
    let missing = missing_sections outcomes in
    let (ids, settled) =
      settle_rows (gate_rows ctx missing db.sessions)
        (session_ids ctx.session_by_section, outcomes) in
    (ids, map (without_session ids) settled)
