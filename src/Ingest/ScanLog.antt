-- ===== src/Ingest/ScanLog.antt =====
-- The log of scan events: complete, without repeats, and the same after a replay.
use offline_qr_school_attend.Common.{
  append_nil, append_assoc, ℕ, ◌≡◌, refl, true, false, Option, none, some, List, [], ◌∷◌, ◌++◌,
  anyb, All, Bool-cases, inl, inr, sym, ◌⊎◌, All-append, ap, ◌∙◌,
}
use offline_qr_school_attend.Ingest.Types.{IngestContext, NormalizedRead, Outcome}
use offline_qr_school_attend.Ingest.Write.{
  is_loggable, is_misfit, logged_db, scan_session, session_ids, scan_event, has_key, insert_scan,
  log_scan, log_one, log_scans, write_scan_events,
}
use offline_qr_school_attend.Store.{ScanEvent, Database}
use offline_qr_school_attend.Ingest.ScanKeys.{
  HasUniqueKeys, IsLogged, log_scans-IsLogged, log_scans-HasUniqueKeys, log_scans_same,
}

module _ (ctx : IngestContext) (reader : ℕ) where
  -- What a row of the log says of an outcome.
  pub record Tells (o : Outcome) (e : ScanEvent) : Type 0 where
    pub read : NormalizedRead
    pub of_read : o.read ≡ some read
    pub loggable : is_loggable o ≡ true
    pub same_school : e.school_id ≡ ctx.school_id
    pub same_reader : e.reader_id ≡ reader
    pub same_credential : e.credential_id ≡ o.credential_id
    pub same_student : e.student_id ≡ o.student_id
    pub same_session :
        e.attendance_session_id
        ≡ scan_session (session_ids ctx.session_by_section) o.class_section_id
    pub same_key : e.idempotency_key ≡ read.idempotency_key
    pub same_badge : e.epc_digest ≡ read.epc_digest
    pub same_antenna : e.antenna_port ≡ read.antenna
    pub same_rssi : e.peak_rssi ≡ read.rssi
    pub same_time : e.scan_timestamp ≡ read.read_at
    pub same_decision : e.decision ≡ o.decision
    pub same_flag : e.review_flag ≡ o.review_flag

  -- A row that tells of one of the outcomes.
  abbrev pub TellsOne : List Outcome → ScanEvent → Type 0
  TellsOne [] e = ⊥
  TellsOne (o ∷ os) e = Tells o e ⊎ TellsOne os e

  -- Rows are added at the end, and each tells of an outcome.
  pub record Adds (os : List Outcome) (es es' : List ScanEvent) : Type 0 where
    pub rows : List ScanEvent
    pub added : es' ≡ es ++ rows
    pub tells : All (TellsOne os) rows

  Adds-nothing : (os : List Outcome) (es : List ScanEvent) → Adds os es es
  Adds-nothing os es = record { rows = []; added = sym (append_nil es); tells = tt }

  insert_scan-Adds :
      (o : Outcome) (r : NormalizedRead) (os : List Outcome) (es : List ScanEvent)
      → o.read ≡ some r
      → is_loggable o ≡ true
      → Adds (o ∷ os) es (insert_scan (scan_event ctx reader o r) es)
  unfolding insert_scan
  insert_scan-Adds o r os es e log = elim (Bool-cases (anyb (has_key r.idempotency_key) es)) [
    | inl old ↦ rw old (Adds-nothing (o ∷ os) es)
    | inr new ↦ rw new (record {
      rows = scan_event ctx reader o r ∷ [];
      added = refl;
      tells = (
        inl (record {
          read = r;
          of_read = e;
          loggable = log;
          same_school = refl;
          same_reader = refl;
          same_credential = refl;
          same_student = refl;
          same_session = refl;
          same_key = refl;
          same_badge = refl;
          same_antenna = refl;
          same_rssi = refl;
          same_time = refl;
          same_decision = refl;
          same_flag = refl;
        }),
        tt,
      );
    })
  ]

  log_scan-Adds :
      (o : Outcome) (m : Option NormalizedRead) (os : List Outcome) (es : List ScanEvent)
      → o.read ≡ m
      → is_loggable o ≡ true
      → Adds (o ∷ os) es (log_scan ctx reader o m es)
  log_scan-Adds o none os es e log = Adds-nothing (o ∷ os) es
  log_scan-Adds o (some r) os es e log = insert_scan-Adds o r os es e log

  log_one-Adds :
      (o : Outcome) (os : List Outcome) (es : List ScanEvent)
      → Adds (o ∷ os) es (log_one ctx reader o es)
  log_one-Adds o os es = elim (Bool-cases (is_loggable o)) [
    | inl log ↦ rw log (log_scan-Adds o o.read os es refl log)
    | inr skip ↦ rw skip (Adds-nothing (o ∷ os) es)
  ]

  later_outcomes :
      (o : Outcome) (os : List Outcome) (rows : List ScanEvent)
      → All (TellsOne os) rows
      → All (TellsOne (o ∷ os)) rows
  later_outcomes o os [] h = tt
  later_outcomes o os (e ∷ rows) (p, h) = (inr p, later_outcomes o os rows h)

  log_scans-Adds :
      (os : List Outcome) (es : List ScanEvent) → Adds os es (log_scans ctx reader os es)
  unfolding log_scans
  log_scans-Adds [] es = Adds-nothing [] es
  log_scans-Adds (o ∷ os) es =
      let first = log_one-Adds o os es in
      let rest = log_scans-Adds os (log_one ctx reader o es) in
      record {
        rows = first.rows ++ rest.rows;
        added =
            rest.added
            ∙ ap (λ l. l ++ rest.rows) first.added
            ∙ append_assoc es first.rows rest.rows;
        tells =
            All-append (TellsOne (o ∷ os)) first.rows rest.rows first.tells
              (later_outcomes o os rest.rows rest.tells);
      }

  fitting_written :
      (os : List Outcome) (db : Database)
      → anyb is_misfit os ≡ false
      → write_scan_events ctx reader os db ≡ some (logged_db ctx reader os db)
  unfolding write_scan_events
  fitting_written os db h = rw h refl

  -- Where no outcome to be logged has a value that its column refuses (an antenna or a signal strength
  -- from 2 ^ 31 on, or a time after the year 9999), the log is written: it grows at its end, by rows
  -- that tell field by field of an outcome that has a read and is no duplicate; it stays free of
  -- repeated keys; every such outcome has a row under its key; and writing the same outcomes once more
  -- changes nothing.
  pub write_scan_events-replay :
      (os : List Outcome) (db : Database)
      → HasUniqueKeys db.scan_events
      → anyb is_misfit os ≡ false
      → (db' : Database) × (write_scan_events ctx reader os db ≡ some db')
        × Adds os db.scan_events db'.scan_events
        × HasUniqueKeys db'.scan_events
        × All (IsLogged db'.scan_events) os
        × (write_scan_events ctx reader os db' ≡ some db')
  write_scan_events-replay os db h fit =
      let db' = logged_db ctx reader os db in
      (
        db',
        fitting_written os db fit,
        log_scans-Adds os db.scan_events,
        log_scans-HasUniqueKeys ctx reader os db.scan_events h,
        log_scans-IsLogged ctx reader os db.scan_events,
        fitting_written os db' fit
            ∙ ap (λ l. some (record db { scan_events = l }))
                (log_scans_same ctx reader os (log_scans ctx reader os db.scan_events)
                  (log_scans-IsLogged ctx reader os db.scan_events)),
      )
