-- ===== src/Ingest/Tests.antt =====
-- Runs of the ingest pipeline, and its theorems at concrete inputs.
use Prim.Native.Char.{code}
use Prim.Native.String.{String}
use offline_qr_school_attend.Common.{
  ℕ, ◌+◌, ◌*◌, ◌/◌, ◌≤◌, ◌≡◌, ◌↔◌, refl, ap, true, false, Option, none, some, List, [], ◌∷◌, map,
  arith, All, length, find?,
}
use offline_qr_school_attend.Common.Sort.{count, iota}
use offline_qr_school_attend.Ingest.Types.{
  Decision, Freshness, TimeSource, SessionStatus, NormalizedRead, IngestContext, Outcome,
}
use offline_qr_school_attend.Ingest.Freshness.{classify_read_time}
use offline_qr_school_attend.Ingest.Freshness.Window.{Means, classify_read_time_iff}
use offline_qr_school_attend.Ingest.Payload.{
  Json, num, str, arr, obj, nil, cons, Fields, end, field,
}
use offline_qr_school_attend.Ingest.Epc.{canonicalize_epc, Canon, ok, compute_epc_digest, salted}
use offline_qr_school_attend.Ingest.Epc.Canonical.{IsCanonical, canonicalize_epc_iff}
use offline_qr_school_attend.Ingest.Epc.Digests.{compute_epc_digest-injective}
use offline_qr_school_attend.Ingest.Normalize.{Platform, NormalizeOpts, Reads, normalize_reads}
use offline_qr_school_attend.Ingest.Batch.{BatchResult, done, process_zebra_batch}
use offline_qr_school_attend.Ingest.Decide.{decide_read}
use offline_qr_school_attend.Ingest.Decide.Explained.{Says, decide-Says}
use offline_qr_school_attend.Ingest.Normalize.Partition.{
  IsReadable, is_readable, positions, normalize_reads-positions,
}
use offline_qr_school_attend.Ingest.Dedupe.{dedupe_in_batch, index_of}
use offline_qr_school_attend.Ingest.Dedupe.Kept.{has_digest, dedupe-earliest}
use offline_qr_school_attend.Ingest.Dedupe.Positions.{outcome_index, dedupe-positions}
use offline_qr_school_attend.Ingest.Write.{is_misfit, write_outcomes, write_scan_events}
use offline_qr_school_attend.Ingest.Records.Upserts.{KeepsAll, write_outcomes-KeepsAll}
use offline_qr_school_attend.Ingest.ScanKeys.{HasUniqueKeys, IsLogged}
use offline_qr_school_attend.Ingest.ScanLog.{Adds, write_scan_events-replay}
use offline_qr_school_attend.Store.{
  Database, AttendanceRecord, AttendanceStatus, CaptureMethod, Source,
}

-- The code units of an ASCII text.
abbrev codes : String → List ℕ
codes String.[] = []
codes (String.◌∷◌ c s) = code c ∷ codes s

abbrev fold_text : ℕ → List ℕ → ℕ
fold_text acc [] = acc
fold_text acc (c ∷ s) = fold_text (acc * 1114112 + c + 1) s

abbrev day_ms : ℕ
day_ms = 86_400_000

-- A platform whose hash is a polynomial, and whose days are those of UTC.
abbrev os : Platform
os = record {
  sha256 = fold_text 0;
  number_of = λ s. none;
  date_of = λ v. none;
  local_date = λ ms. ms / day_ms;
  hex_text = λ n. n ∷ [];
  decimal_text = λ n. n ∷ [];
}

abbrev now : ℕ
now = 1_700_000_000_000

abbrev opts : NormalizeOpts
opts = record { school_id = codes "school-1"; reader_id = codes "reader-7"; now = now }

abbrev epc_a : List ℕ
epc_a = codes "0xe280-1160-6000-0209"

abbrev epc_b : List ℕ
epc_b = codes "E280116060000210"

-- Badge A twice, the later read first; badge B a day early; an entry with no EPC; an unknown badge.
abbrev body : Json
body = arr (
    cons (obj (field "epc" (str epc_a) (field "timestamp" (num 1_700_000_000_000) end))) (
      cons (obj (field "idHex" (str epc_a) (field "timestamp" (num 1_699_999_990) end))) (
        cons (obj (field "epc" (str epc_b) (field "timestamp" (num 1_699_900_000_000) end)))
          (cons (obj (field "rssi" (num 5) end)) (cons (num 3) nil)))))

canonical_a : canonicalize_epc epc_a ≡ ok (codes "E280116060000209")
unfolding canonicalize_epc
canonical_a = refl

abbrev digest_a : ℕ
digest_a = fold_text 0 (codes "E280116060000209:school-1")

abbrev raw : List Fields
raw =
    field "epc" (str epc_a) (field "timestamp" (num 1_700_000_000_000) end)
    ∷ field "idHex" (str epc_a) (field "timestamp" (num 1_699_999_990) end)
    ∷ field "epc" (str epc_b) (field "timestamp" (num 1_699_900_000_000) end)
    ∷ field "rssi" (num 5) end
    ∷ end
    ∷ []

abbrev context : IngestContext
context = record {
  school_id = 1;
  school_date = now / day_ms;
  is_school_day = true;
  debounced = [];
  creds_by_digest =
      (digest_a, record { id = 50; student_id = 60; epc_digest = digest_a; status = "ACTIVE" })
      ∷ [];
  students_by_id = (60, record { id = 60; status = "ACTIVE" }) ∷ [];
  enrollment_by_student = (60, record { student_id = 60; class_section_id = 70 }) ∷ [];
  session_by_section = [];
  teacher_by_section = (70, 80) ∷ [];
}

abbrev empty : Database
empty = record {
  next_id = 100;
  sessions = [];
  roster = [];
  records = [];
  events = [];
  corrections = [];
  scan_events = [];
  jobs = [];
  audit_logs = [];
}

abbrev decisions : BatchResult → List Decision
decisions (done db all c) = map (λ (o : Outcome). o.decision) all
decisions _ = []

run_decisions :
    decisions (process_zebra_batch os opts false 7 (λ rs. context) body empty)
    ≡ Decision.duplicate_in_batch ∷ Decision.accepted ∷ Decision.wrong_school_day
      ∷ Decision.malformed_read ∷ Decision.malformed_read ∷ []
unfolding process_zebra_batch
run_decisions = refl

raw-IsReadable : All IsReadable raw
unfolding is_readable
raw-IsReadable = (refl, (refl, (refl, (refl, (refl, tt)))))

-- A time that `String` cannot print ends the whole batch.
abbrev unprintable : List Fields
unprintable =
    field "epc" (str epc_a) (field "firstSeen" (obj (field "toString" (num 1) end)) end) ∷ []

unprintable_throws : normalize_reads os opts unprintable ≡ none
unfolding normalize_reads
unprintable_throws = refl

-- A read of a badge at an instant.
abbrev read_of : ℕ → ℕ → ℕ → NormalizedRead
read_of index badge at = record {
  index = index;
  epc_digest = badge;
  epc_last4 = codes "0209";
  tid_digest = none;
  antenna = none;
  rssi = none;
  read_at = at;
  time_source = TimeSource.reader;
  freshness = Freshness.fresh;
  idempotency_key = 1000 + index;
}

-- Student 60 carries two badges, 11 and 12.
abbrev two_badges : IngestContext
two_badges = record context {
  creds_by_digest =
      (11, record { id = 50; student_id = 60; epc_digest = 11; status = "ACTIVE" })
      ∷ (12, record { id = 51; student_id = 60; epc_digest = 12; status = "ACTIVE" })
      ∷ [];
  session_by_section =
      (70, record { id = 90; class_section_id = 70; status = SessionStatus.opened }) ∷ [];
}

abbrev pair_of_reads : List NormalizedRead
pair_of_reads = read_of 0 11 (now + 5) ∷ read_of 1 12 now ∷ []

abbrev decided_pair : List Outcome
decided_pair = map (λ r. decide_read r two_badges) pair_of_reads

-- Session 90 holds a mark of student 60 that a teacher set by hand.
abbrev manual_absence : AttendanceRecord
manual_absence = record {
  id = 91;
  school_id = 1;
  attendance_session_id = 90;
  student_id = 60;
  status = AttendanceStatus.absent;
  first_scanned_at = none;
  last_updated_at = 0;
  capture_method = CaptureMethod.manual;
  source = some Source.rfid;
  first_seen_at = none;
  last_seen_at = none;
  review_reason = none;
}

abbrev marked : Database
marked = record empty { records = manual_absence ∷ [] }

abbrev written_decisions : Option (Database × List Outcome) → List Decision
written_decisions none = []
written_decisions (some (db, os)) = map (λ (o : Outcome). o.decision) os

-- The outcome that a later one displaces keeps its decision, although nothing is written for it.
displaced_stays_accepted :
    written_decisions (write_outcomes two_badges 7 now decided_pair marked)
    ≡ Decision.accepted ∷ Decision.manual_override_preserved ∷ []
unfolding write_outcomes decide_read
displaced_stays_accepted = refl

abbrev written_db : Option (Database × List Outcome) → Database
written_db none = empty
written_db (some (db, _)) = db

abbrev written_pair : Option (Database × List Outcome) → List Outcome
written_pair none = []
written_pair (some (_, outcomes)) = outcomes

abbrev pair_result : Option (Database × List Outcome)
unfolding write_outcomes decide_read
pair_result = write_outcomes two_badges 7 now decided_pair marked

write_outcomes-KeepsAll_example : KeepsAll marked.records (written_db pair_result).records
unfolding write_outcomes decide_read pair_result
write_outcomes-KeepsAll_example =
    write_outcomes-KeepsAll two_badges 7 now decided_pair (written_pair pair_result) marked
      (written_db pair_result) refl

-- A signal strength beyond the column loses the whole log of the batch.
misfit_is_refused :
    write_scan_events two_badges 7
      (decide_read (record (read_of 0 11 now) { rssi = some 3_000_000_000 }) two_badges ∷ [])
      marked
    ≡ none
unfolding write_scan_events decide_read
misfit_is_refused = refl

-- So does a time after the year 9999.
far_time_is_refused :
    write_scan_events two_badges 7
      (decide_read (record (read_of 0 11 now) { read_at = 300_000_000_000_000 }) two_badges ∷ [])
      marked
    ≡ none
unfolding write_scan_events decide_read
far_time_is_refused = refl

write_scan_events-replay_example :
    (db' : Database) × (write_scan_events two_badges 7 decided_pair marked ≡ some db')
    × Adds two_badges 7 decided_pair [] db'.scan_events
    × HasUniqueKeys db'.scan_events
    × All (IsLogged db'.scan_events) decided_pair
    × (write_scan_events two_badges 7 decided_pair db' ≡ some db')
unfolding is_misfit decide_read
write_scan_events-replay_example = write_scan_events-replay two_badges 7 decided_pair marked tt refl

decide-Says_example : Says (read_of 1 12 now) two_badges Decision.accepted
unfolding decide_read
decide-Says_example = decide-Says (read_of 1 12 now) two_badges

classify_read_time_iff_example :
    (classify_read_time os.local_date (some (now + 120_001)) now ≡ Freshness.future_skew)
    ↔ Means os.local_date (some (now + 120_001)) now Freshness.future_skew
classify_read_time_iff_example =
    classify_read_time_iff os.local_date (some (now + 120_001)) now Freshness.future_skew

canonicalize_epc_iff_example :
    IsCanonical (codes "E280116060000209")
    × ((canonicalize_epc epc_a ≡ ok epc_a) ↔ IsCanonical epc_a)
    × (canonicalize_epc (codes "E280116060000209") ≡ ok (codes "E280116060000209"))
canonicalize_epc_iff_example = canonicalize_epc_iff epc_a (codes "E280116060000209") canonical_a

normalize_reads-positions_example :
    (acc : Reads) × (normalize_reads os opts raw ≡ some acc)
    × ((a : ℕ) → count a (positions acc) ≡ count a (iota 0 (length raw)))
normalize_reads-positions_example = normalize_reads-positions os opts raw raw-IsReadable

dedupe-earliest_example :
    All
      (λ r.
        (u : NormalizedRead) × (find?
            (has_digest r.epc_digest)
            (dedupe_in_batch pair_of_reads).unique
          ≡ some u)
        × (u.read_at ≤ r.read_at))
      pair_of_reads
dedupe-earliest_example = dedupe-earliest pair_of_reads

dedupe-positions_example :
    let d = dedupe_in_batch pair_of_reads in
    count 1 (map index_of d.unique) + count 1 (map outcome_index d.dupes)
    ≡ count 1 (map index_of pair_of_reads)
dedupe-positions_example = dedupe-positions pair_of_reads 1 (omega arith)

ok-injective : (x y : List ℕ) (c : Canon) → c ≡ ok x → c ≡ ok y → x ≡ y
ok-injective x y c ex ey = cc (ex, ey)

compute_epc_digest-injective_example :
    (canonicalize_epc epc_a ≡ canonicalize_epc (codes "E280116060000209"))
    × (codes "school-1" ≡ codes "school-1")
unfolding compute_epc_digest
compute_epc_digest-injective_example =
    compute_epc_digest-injective os.sha256 epc_a (codes "E280116060000209") b's' b's' digest_a
      (codes "chool-1") (codes "chool-1")
      (λ x y ex ey h.
        ap (λ t. salted t (codes "school-1")) (ok-injective x y (canonicalize_epc epc_a) ex ey))
      refl refl
