-- ===== src/Worker/Queue.antt =====
-- `processNotificationQueue` of src/services/notificationWorker.ts: a run of the worker.
use offline_qr_school_attend.Common.{
  ℕ, suc, ◌&&◌, Option, none, some, List, [], ◌∷◌, ◌==◌, leb, length, map, if◌then◌else◌,
}
use offline_qr_school_attend.Store.{JobStatus}
use offline_qr_school_attend.Worker.Claim.{AtomicClaim, ClaimParams, Claimed, claim_eligible_jobs}
use offline_qr_school_attend.Worker.Process.{
  error_or, process_claimed_job, failed_row, failure_status, insert_attempt,
}
use offline_qr_school_attend.Worker.Types.{
  FailureReason, QueuedJob, WorkerDb, Surroundings, SmsProvider,
}

pub record QueueOptions : Type 0 where
  pub limit : ℕ
  pub max_retries : ℕ
  pub school_id : Option ℕ

-- `value || fallback`
abbrev pub or_default : ℕ → ℕ → ℕ
or_default fallback n = if n == 0 then fallback else n

unfoldable pub claim_params : QueueOptions → ℕ → ClaimParams
claim_params o worker = record {
  limit = or_default 20 o.limit;
  max_retries = or_default 3 o.max_retries;
  worker_id = worker;
  school_id = o.school_id;
}

abbrev pub tenant_processing_failed : List ℕ
tenant_processing_failed =
    b'T' ∷ b'E' ∷ b'N' ∷ b'A' ∷ b'N' ∷ b'T' ∷ b'_' ∷ b'P' ∷ b'R' ∷ b'O' ∷ b'C' ∷ b'E' ∷ b'S' ∷ b'S'
    ∷ b'I' ∷ b'N' ∷ b'G' ∷ b'_' ∷ b'F' ∷ b'A' ∷ b'I' ∷ b'L' ∷ b'E' ∷ b'D' ∷ []

-- `recordFailure`, whose last argument the worker leaves at false. The school is part of the key.
abbrev pub fail_own : QueuedJob → (QueuedJob → QueuedJob) → QueuedJob → QueuedJob
fail_own j f row = if row.id == j.id && row.school_id == j.school_id then f row else row

unfoldable pub record_failure : ℕ → ℕ → QueuedJob → List ℕ → WorkerDb → WorkerDb
record_failure now max_retries j error db =
    let attempt = suc j.attempt_count in
    let permanent = leb max_retries attempt in
    let reason = FailureReason.message error in
    insert_attempt j.id attempt (failure_status permanent) (some reason)
      (record db { jobs = map (fail_own j (failed_row now attempt permanent reason)) db.jobs })

-- Whether the database fails the transaction of a job, which then leaves nothing of it, and
-- whether it fails the one that records this too.
pub data Fault : Type 0 where
  no_fault : Fault
  job_fault : List ℕ → Fault
  both_fault : List ℕ → Fault

pub record QueueTally : Type 0 where
  pub sent : ℕ
  pub failed : ℕ
  pub permanent_failures : ℕ

abbrev pub count_status : JobStatus → QueueTally → QueueTally
count_status JobStatus.sent t = record t { sent = suc t.sent }
count_status JobStatus.failed t = record t { failed = suc t.failed }
count_status JobStatus.permanent_failure t = record t {
  permanent_failures = suc t.permanent_failures;
}
count_status _ t = t

pub record Run : Type 0 where
  pub db : WorkerDb
  pub tally : QueueTally

module _ (w : Surroundings) (provider : SmsProvider) (now max_retries : ℕ) where
  -- One round of the loop, on job `k` of the run.
  unfoldable pub run_job : Fault → ℕ → QueuedJob → Run → Run
  unfolding process_claimed_job record_failure
  run_job Fault.no_fault k j r =
      let p = process_claimed_job w provider now max_retries k j r.db in
      record { db = p.db; tally = count_status p.status r.tally }
  run_job (Fault.job_fault error) k j r = record {
    db = record_failure now max_retries j (error_or error tenant_processing_failed) r.db;
    tally = record r.tally { failed = suc r.tally.failed };
  }
  run_job (Fault.both_fault error) k j r = record r {
    tally = record r.tally { failed = suc r.tally.failed };
  }

  unfoldable pub run_jobs : (ℕ → Fault) → ℕ → List QueuedJob → Run → Run
  unfolding run_job
  run_jobs faults k [] r = r
  run_jobs faults k (j ∷ js) r = run_jobs faults (suc k) js (run_job (faults k) k j r)

pub record QueueResult : Type 0 where
  pub db : WorkerDb
  pub processed : ℕ
  pub tally : QueueTally

abbrev pub no_tally : QueueTally
no_tally = record { sent = 0; failed = 0; permanent_failures = 0 }

-- The loop of a run, once the jobs are claimed.
abbrev pub run_claimed :
    Surroundings
    → SmsProvider
    → ℕ
    → ℕ
    → (ℕ → Fault)
    → WorkerDb
    → Option Claimed
    → Option QueueResult
run_claimed w provider now max_retries faults db none = none
run_claimed w provider now max_retries faults db (some c) =
    let r =
      run_jobs w provider now max_retries faults 0 c.claimed
        (record { db = record db { jobs = c.jobs }; tally = no_tally }) in
    some (record { db = r.db; processed = length c.claimed; tally = r.tally })

-- `processNotificationQueue`; `none` is the error of the claim, after which nothing has changed.
unfoldable pub process_notification_queue :
    Surroundings
    → SmsProvider
    → AtomicClaim
    → QueueOptions
    → ℕ
    → ℕ
    → (ℕ → Fault)
    → WorkerDb
    → Option QueueResult
unfolding claim_eligible_jobs claim_params run_jobs
process_notification_queue w provider statement o worker now faults db =
    let p = claim_params o worker in
    run_claimed w provider now p.max_retries faults db (claim_eligible_jobs statement p now db.jobs)
