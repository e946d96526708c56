-- ===== src/Ingest/Records/Upserts.antt =====
-- The upsert of src/services/rfid/ingest/write.ts, row by row.
use mathlib.Core.Path.{subst}
use offline_qr_school_attend.Common.{
  find?-append_some, anyb, if◌then◌else◌, Bool, true, ℕ, ◌≡◌, refl, false, Option, none, some, List,
  [], ◌∷◌, ◌++◌, arith, Bool-cases, inl, inr, ◌∙◌, ap, sym,
}
use offline_qr_school_attend.Common.Maps.{Map, values}
use offline_qr_school_attend.Common.Sort.{sort_by}
use offline_qr_school_attend.Ingest.Types.{IngestContext, Outcome}
use offline_qr_school_attend.Ingest.Write.{
  student_of, seen_at, UpsertRow, seen_again, update_record, upsert_db, upsert_all, Returned,
  is_updatable, insert_session, insert_sessions, missing_sections, stage, collect, log_presence,
  lock_key, record_presence, write_outcomes, write_scan_events, is_misfit, logged_db, with_log,
}
use offline_qr_school_attend.Ingest.Total.{stage-collects, with_log_misfit, write_outcomes_lem}
use offline_qr_school_attend.Store.{AttendanceRecord, Database, record_at, is_record_of}

-- What a batch may do to a record that is there: a manual one keeps every field, and any other at
-- least its mark and where that comes from.
pub record Keeps (r r' : AttendanceRecord) : Type 0 where
  pub same_id : r'.id ≡ r.id
  pub same_session : r'.attendance_session_id ≡ r.attendance_session_id
  pub same_student : r'.student_id ≡ r.student_id
  pub same_status : r'.status ≡ r.status
  pub same_capture : r'.capture_method ≡ r.capture_method
  pub same_source : r'.source ≡ r.source
  pub same_first_seen : r'.first_seen_at ≡ r.first_seen_at
  pub manual_untouched : is_updatable r ≡ false → r' ≡ r

Keeps-refl : (r : AttendanceRecord) → Keeps r r
Keeps-refl r = record {
  same_id = refl;
  same_session = refl;
  same_student = refl;
  same_status = refl;
  same_capture = refl;
  same_source = refl;
  same_first_seen = refl;
  manual_untouched = λ h. refl;
}

Keeps-trans : (p q r : AttendanceRecord) → Keeps p q → Keeps q r → Keeps p r
Keeps-trans p q r h k = record {
  same_id = k.same_id ∙ h.same_id;
  same_session = k.same_session ∙ h.same_session;
  same_student = k.same_student ∙ h.same_student;
  same_status = k.same_status ∙ h.same_status;
  same_capture = k.same_capture ∙ h.same_capture;
  same_source = k.same_source ∙ h.same_source;
  same_first_seen = k.same_first_seen ∙ h.same_first_seen;
  manual_untouched = λ m.
      k.manual_untouched (ground (arith, h.same_source, h.same_capture)) ∙ h.manual_untouched m;
}

Keeps-seen_again : (now at : ℕ) (r : AttendanceRecord) → Keeps r (seen_again now at r)
Keeps-seen_again now at r = elim (Bool-cases (is_updatable r)) [
  | inl updatable ↦ rw updatable (record {
    same_id = refl;
    same_session = refl;
    same_student = refl;
    same_status = refl;
    same_capture = refl;
    same_source = refl;
    same_first_seen = refl;
    manual_untouched = λ h. absurd (ground (arith, updatable, h));
  })
  | inr manual ↦ rw manual (Keeps-refl r)
]

-- Every record that one table holds is kept by the other.
abbrev pub KeepsAll : List AttendanceRecord → List AttendanceRecord → Type 0
KeepsAll rs rs' =
    (s t : ℕ) (r : AttendanceRecord)
    → record_at s t rs ≡ some r
    → (r' : AttendanceRecord) × (record_at s t rs' ≡ some r') × Keeps r r'

KeepsAll-refl : (rs : List AttendanceRecord) → KeepsAll rs rs
KeepsAll-refl rs s t r e = (r, e, Keeps-refl r)

KeepsAll-trans :
    (xs ys zs : List AttendanceRecord) → KeepsAll xs ys → KeepsAll ys zs → KeepsAll xs zs
KeepsAll-trans xs ys zs h k s t r e =
    let (r1, e1, k1) = h s t r e in
    let (r2, e2, k2) = k s t r1 e1 in (r2, e2, Keeps-trans r r1 r2 k1 k2)

KeepsAll-append : (rs new : List AttendanceRecord) → KeepsAll rs (rs ++ new)
KeepsAll-append rs new s t r e = (r, find?-append_some (is_record_of s t) rs new r e, Keeps-refl r)

is_record_of-seen_again :
    (s t now at : ℕ) (r : AttendanceRecord)
    → is_record_of s t (seen_again now at r) ≡ is_record_of s t r
is_record_of-seen_again s t now at r = ground arith

KeepsAll-update :
    (now at s' t' : ℕ) (rs : List AttendanceRecord)
    → KeepsAll rs (update_record (seen_again now at) (is_record_of s' t') rs)
KeepsAll-update now at s' t' [] s t r e = absurd (cc)
KeepsAll-update now at s' t' (x ∷ xs) s t r e = elim (Bool-cases (is_record_of s' t' x)) [
  | inl hit ↦ rw hit (elim (Bool-cases (is_record_of s t x)) [
    | inl here ↦ (
      seen_again now at x,
      rw (is_record_of-seen_again s t now at x, here) refl,
      let same : x ≡ r = ground (arith, e, here) in
          subst (λ y. Keeps y (seen_again now at x)) same (Keeps-seen_again now at x),
    )
    | inr there ↦ (r, rw (is_record_of-seen_again s t now at x, there) (ground arith), Keeps-refl r)
  ])
  | inr miss ↦ rw miss (elim (Bool-cases (is_record_of s t x)) [
    | inl here ↦ (r, rw here (ground arith), Keeps-refl r)
    | inr there ↦ rw there (KeepsAll-update now at s' t' xs s t r (ground arith))
  ])
]

pub upsert_db-KeepsAll :
    (ctx : IngestContext) (now : ℕ) (u : UpsertRow) (o : Option AttendanceRecord) (db : Database)
    → KeepsAll db.records (upsert_db ctx now u o db).records
upsert_db-KeepsAll ctx now u none db = KeepsAll-append db.records _
upsert_db-KeepsAll ctx now u (some r) db =
    KeepsAll-update now (seen_at u.o) u.session_id (student_of u.o) db.records

pub upsert_all-KeepsAll :
    (ctx : IngestContext) (now : ℕ) (us : List UpsertRow) (db : Database)
    → KeepsAll db.records (upsert_all ctx now us db).0.records
unfolding upsert_all
upsert_all-KeepsAll ctx now [] db = KeepsAll-refl db.records
upsert_all-KeepsAll ctx now (u ∷ us) db =
    let found = record_at u.session_id (student_of u.o) db.records in
    let db' = upsert_db ctx now u found db in
    KeepsAll-trans db.records db'.records (upsert_all ctx now us db').0.records
      (upsert_db-KeepsAll ctx now u found db) (upsert_all-KeepsAll ctx now us db')

-- The other steps of a batch leave the records alone.
insert_sessions-records :
    (ctx : IngestContext) (xs : List ℕ) (db : Database)
    → (insert_sessions ctx xs db).records ≡ db.records
unfolding insert_sessions
insert_sessions-records ctx [] db = refl
insert_sessions-records ctx (x ∷ xs) db =
    insert_sessions-records ctx xs (insert_session ctx x db) ∙ ground arith

pub log_presence-records :
    (ctx : IngestContext) (reader now : ℕ) (ids : Map ℕ) (m : Map Outcome) (rs : List Returned)
    (db : Database)
    → (log_presence ctx reader now ids m rs db).records ≡ db.records
unfolding log_presence
log_presence-records ctx reader now ids m [] db = refl
log_presence-records ctx reader now ids m (r ∷ rs) db =
    log_presence-records ctx reader now ids m rs _ ∙ ground arith

pub stage-records :
    (ctx : IngestContext) (outcomes : List Outcome) (db : Database)
    → (stage ctx outcomes db).db.records ≡ db.records
unfolding stage
stage-records ctx outcomes db =
    insert_sessions-records ctx (sort_by (λ n. n) (missing_sections outcomes)) db

pub record_presence-records :
    (ctx : IngestContext) (reader now : ℕ) (ids : Map ℕ) (m : Map Outcome) (os : List Outcome)
    (rows : List UpsertRow) (db : Database)
    → (record_presence ctx reader now ids m os rows db).0.records
      ≡ (upsert_all ctx now (sort_by lock_key rows) db).0.records
unfolding record_presence
record_presence-records ctx reader now ids m os rows db =
    let (db', returned) = upsert_all ctx now (sort_by lock_key rows) db in
    log_presence-records ctx reader now ids m returned db'

pub write_scan_events-records :
    (ctx : IngestContext) (reader : ℕ) (os : List Outcome) (db : Database) (db' : Database)
    (os' : List Outcome)
    → with_log os (write_scan_events ctx reader os db) ≡ some (db', os')
    → db'.records ≡ db.records
write_scan_events-records ctx reader os db db' os' h =
    ap (λ (x : Database). x.records)
      (kept (anyb is_misfit os) (sym (with_log_misfit ctx reader os db) ∙ h))
  where
    kept :
        (b : Bool)
        → (let o : Option (Database × List Outcome) =
              if b then none else some (logged_db ctx reader os db, os) in
            o ≡ some (db', os'))
        → db' ≡ logged_db ctx reader os db
    kept true e = absurd (cc)
    kept false e = cc

module _ (ctx : IngestContext) (reader now : ℕ) (outcomes written : List Outcome)
    (db db' : Database) (e : write_outcomes ctx reader now outcomes db ≡ some (db', written)) where
  -- The records after the write stage are those of its upsert.
  pub write_outcomes-records :
      (rows : List UpsertRow) × (collect
          (stage ctx outcomes db).ids
          (values (stage ctx outcomes db).by_student)
        ≡ some rows)
      × (db'.records
          ≡ (upsert_all ctx now (sort_by lock_key rows) (stage ctx outcomes db).db).0.records)
  write_outcomes-records =
      let s = stage ctx outcomes db in
      let (rows, c) = stage-collects ctx outcomes db in
      let r = record_presence ctx reader now s.ids s.by_student s.chosen rows s.db in
      (
        rows,
        c,
        write_scan_events-records ctx reader r.1 r.0 db' written
              (sym (write_outcomes_lem ctx reader now outcomes db rows c) ∙ e)
            ∙ record_presence-records ctx reader now s.ids s.by_student s.chosen rows s.db,
      )

  -- A batch removes no record, changes the mark of none, and leaves a manual one as it is, field by
  -- field.
  pub write_outcomes-KeepsAll : KeepsAll db.records db'.records
  write_outcomes-KeepsAll =
      let (rows, c, after) = write_outcomes-records in
      let before = stage-records ctx outcomes db in
      subst (λ x. KeepsAll x db'.records) before
        (subst (λ x. KeepsAll (stage ctx outcomes db).db.records x) (sym after)
          (upsert_all-KeepsAll ctx now (sort_by lock_key rows) (stage ctx outcomes db).db))
