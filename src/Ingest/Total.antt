-- ===== src/Ingest/Total.antt =====
-- The write stage of an ingest batch always ends, and answers for every outcome that it was given.
use offline_qr_school_attend.Common.{
  ℕ, ◌≡◌, refl, true, ◌&&◌, some, none, anyb, if◌then◌else◌, List, [], ◌∷◌, map, arith, All,
  Bool-cases, Option-cases, inl, inr, ap, ◌==◌,
}
use offline_qr_school_attend.Common.Maps.{Map, lookup, insert, has, values}
use offline_qr_school_attend.Common.Sort.{sort_by}
use offline_qr_school_attend.Ingest.Types.{is_accepted, IngestContext, Outcome}
use offline_qr_school_attend.Ingest.Write.{
  section_of, student_of, missing_sections, insert_sessions, without_session, settle_sessions, wins,
  next_by_student, choose, UpsertRow, collect, stage, record_presence, finish_write, write_outcomes,
  write_scan_events, is_misfit, logged_db, with_log,
}
use offline_qr_school_attend.Store.{Database}

-- After step A every accepted outcome has a session.
abbrev Placed : Map ℕ → Outcome → Type 0
Placed ids o = is_accepted o.decision ≡ true → has (section_of o) ids ≡ true

without_session-Placed :
    (ids : Map ℕ) (os : List Outcome) → All (Placed ids) (map (without_session ids) os)
without_session-Placed ids [] = tt
without_session-Placed ids (o ∷ os) = (λ h. ground arith, without_session-Placed ids os)

abbrev InSession : Map ℕ → Outcome → Type 0
InSession ids o = has (section_of o) ids ≡ true

insert-InSession :
    (ids : Map ℕ) (k : ℕ) (o : Outcome) (m : Map Outcome)
    → InSession ids o
    → All (InSession ids) (values m)
    → All (InSession ids) (values (insert k o m))
insert-InSession ids k o [] p h = (p, tt)
insert-InSession ids k o ((j, w) ∷ m) p (q, h) = elim (Bool-cases (k == j)) [
  | inl same ↦ rw same (p, h)
  | inr other ↦ rw other (q, insert-InSession ids k o m p h)
]

next_by_student-InSession :
    (ids : Map ℕ) (o : Outcome) (m : Map Outcome)
    → Placed ids o
    → All (InSession ids) (values m)
    → All (InSession ids) (values (next_by_student o m))
next_by_student-InSession ids o m p h = elim (Bool-cases (is_accepted o.decision && wins o m)) [
  | inl new ↦ rw new (insert-InSession ids (student_of o) o m (p (ground arith)) h)
  | inr old ↦ rw old h
]

choose-InSession :
    (ids : Map ℕ) (m : Map Outcome) (os : List Outcome)
    → All (Placed ids) os
    → All (InSession ids) (values m)
    → All (InSession ids) (values (choose m os).0)
unfolding choose
choose-InSession ids m [] p h = h
choose-InSession ids m (o ∷ os) (q, p) h =
    choose-InSession ids (next_by_student o m) os p (next_by_student-InSession ids o m q h)

collect_total :
    (ids : Map ℕ) (os : List Outcome)
    → All (InSession ids) os
    → (rows : List UpsertRow) × (collect ids os ≡ some rows)
unfolding collect
collect_total ids [] h = ([], refl)
collect_total ids (o ∷ os) (p, h) =
    let (rows, e) = collect_total ids os h in
    elim (Option-cases (lookup (section_of o) ids)) [
      | inl missing ↦ absurd (ground arith)
      | inr (id, found) ↦ (record { o = o; session_id = id } ∷ rows, rw (found, e))
    ]

module _ (ctx : IngestContext) (outcomes : List Outcome) (db : Database) where
  -- The rows of the upsert can be built.
  pub stage-collects :
      (rows : List UpsertRow) × (collect
          (stage ctx outcomes db).ids
          (values (stage ctx outcomes db).by_student)
        ≡ some rows)
  unfolding stage settle_sessions
  stage-collects =
      let db' = insert_sessions ctx (sort_by (λ n. n) (missing_sections outcomes)) db in
      let s = settle_sessions ctx outcomes db' in
      collect_total s.0 (values (choose [] s.1).0)
        (choose-InSession s.0 [] s.1 (without_session-Placed s.0 _) tt)

-- What the write stage returns, once its rows are built.
pub write_outcomes_lem :
    (ctx : IngestContext) (reader now : ℕ) (outcomes : List Outcome) (db : Database)
    (rows : List UpsertRow)
    → let s = stage ctx outcomes db in
      collect s.ids (values s.by_student) ≡ some rows
      → let r = record_presence ctx reader now s.ids s.by_student s.chosen rows s.db in
        write_outcomes ctx reader now outcomes db
        ≡ with_log r.1 (write_scan_events ctx reader r.1 r.0)
unfolding write_outcomes
write_outcomes_lem ctx reader now outcomes db rows e =
    let s = stage ctx outcomes db in
    ap (λ x. finish_write ctx reader now s.ids s.by_student s.chosen x s.db) e

-- The two ends of the log of scan events.
pub with_log_misfit :
    (ctx : IngestContext) (reader : ℕ) (os : List Outcome) (db : Database)
    → with_log os (write_scan_events ctx reader os db)
      ≡ (if anyb is_misfit os then none else some (logged_db ctx reader os db, os))
unfolding write_scan_events
with_log_misfit ctx reader os db = elim (Bool-cases (anyb is_misfit os)) [
  | inl misfit ↦ rw misfit refl
  | inr fit ↦ rw fit refl
]
