-- ===== src/Ingest/Batch.antt =====
-- src/services/rfid/ingest/index.ts: the pipeline. Authentication, the school's settings and the
-- context come from services that read the database; here they are the arguments of a run.
use offline_qr_school_attend.Common.{
  ℕ, ◌+◌, Bool, false, ◌||◌, not, Option, none, some, List, [], ◌∷◌, ◌++◌, map, ◌==◌, if◌then◌else◌,
  length,
}
use offline_qr_school_attend.Common.Sort.{sort_by}
use offline_qr_school_attend.Ingest.Types.{
  Decision, in_accepted_decisions, in_duplicate_decisions, NormalizedRead, MalformedRead,
  IngestContext, Outcome,
}
use offline_qr_school_attend.Ingest.Payload.{
  Json, PayloadError, Extracted, reads, refused, extract_raw_reads,
}
use offline_qr_school_attend.Ingest.Normalize.{Platform, NormalizeOpts, Reads, normalize_reads}
use offline_qr_school_attend.Ingest.Dedupe.{Deduped, dedupe_in_batch}
use offline_qr_school_attend.Ingest.Decide.{decide_read}
use offline_qr_school_attend.Ingest.Write.{with_log, write_outcomes, write_scan_events}
use offline_qr_school_attend.Store.{Database}

pub record Counts : Type 0 where
  pub accepted_count : ℕ
  pub duplicate_count : ℕ
  pub rejected_count : ℕ

-- One round of the loop in `summarize`.
unfoldable pub tally : Decision → Counts → Counts
unfolding in_accepted_decisions in_duplicate_decisions
tally d c =
    if in_accepted_decisions d
    then record c { accepted_count = c.accepted_count + 1 }
    else if in_duplicate_decisions d
    then record c { duplicate_count = c.duplicate_count + 1 }
    else record c { rejected_count = c.rejected_count + 1 }

unfoldable pub tally_from : List Outcome → Counts → Counts
unfolding tally
tally_from [] c = c
tally_from (o ∷ os) c = tally_from os (tally o.decision c)

abbrev pub no_counts : Counts
no_counts = record { accepted_count = 0; duplicate_count = 0; rejected_count = 0 }

-- `summarize`; `none` is the error INGEST_INVARIANT, which is thrown outside production.
unfoldable pub summarize : List Outcome → ℕ → Option Counts
unfolding tally_from
summarize all processed =
    let c = tally_from all no_counts in
    if not (c.accepted_count + c.duplicate_count + c.rejected_count == processed)
      || not (length all == processed)
    then none
    else some c

abbrev pub malformed_outcome : MalformedRead → Outcome
malformed_outcome m = record {
  index = m.index;
  decision = Decision.malformed_read;
  read = none;
  student_id = none;
  class_section_id = none;
  credential_id = none;
  needs_session = false;
  review_flag = none;
}

abbrev pub outcome_key : Outcome → ℕ
outcome_key o = o.index

-- `[...outcomes, ...dupes, ...malformed].sort((a, b) => a.index - b.index)`
unfoldable pub merge_results : List Outcome → List Outcome → List MalformedRead → List Outcome
unfolding sort_by
merge_results outcomes dupes malformed =
    sort_by outcome_key (outcomes ++ (dupes ++ map malformed_outcome malformed))

pub data BatchError : Type 0 where
  payload : PayloadError → BatchError
  unexpected : BatchError

pub data BatchResult : Type 0 where
  done : Database → List Outcome → Counts → BatchResult
  failed : BatchError → BatchResult

-- `rfidMode === 'SHADOW'` logs the decisions and writes no attendance.
unfoldable pub write_stage :
    Bool → IngestContext → ℕ → ℕ → List Outcome → Database → Option (Database × List Outcome)
unfolding write_outcomes write_scan_events
write_stage shadow ctx reader now decided db =
    let written = write_outcomes ctx reader now decided db in
    if shadow then with_log decided (write_scan_events ctx reader decided db) else written

abbrev pub with_counts : Database → List Outcome → Option Counts → BatchResult
with_counts db all none = failed BatchError.unexpected
with_counts db all (some c) = done db all c

abbrev pub after_write :
    ℕ → Deduped → List MalformedRead → Option (Database × List Outcome) → BatchResult
after_write processed d malformed none = failed BatchError.unexpected
after_write processed d malformed (some (db, outcomes)) =
    let all = merge_results outcomes d.dupes malformed in
    with_counts db all (summarize all processed)

module _ (os : Platform) (opts : NormalizeOpts) (shadow : Bool) (reader : ℕ)
    (load_context : List NormalizedRead → IngestContext) where
  abbrev pub after_normalize : ℕ → Option Reads → Database → BatchResult
  after_normalize processed none db = failed BatchError.unexpected
  after_normalize processed (some r) db =
      let d = dedupe_in_batch r.reads in
      let ctx = load_context d.unique in
      let decided = map (λ x. decide_read x ctx) d.unique in
      after_write processed d r.malformed (write_stage shadow ctx reader opts.now decided db)

  abbrev pub after_extract : Extracted → Database → BatchResult
  after_extract (refused e) db = failed (BatchError.payload e)
  after_extract (reads raw) db = after_normalize (length raw) (normalize_reads os opts raw) db

  -- `processZebraBatch`
  unfoldable pub process_zebra_batch : Json → Database → BatchResult
  unfolding extract_raw_reads normalize_reads dedupe_in_batch decide_read write_stage merge_results
      summarize
  process_zebra_batch body db = after_extract (extract_raw_reads body) db
