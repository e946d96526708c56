-- ===== src/Worker/Tests.antt =====
-- Runs of the worker, and the theorems at concrete inputs.
use offline_qr_school_attend.Common.{
  ◌≡◌, refl, true, false, Option, none, some, [], ◌∷◌, map, All, ◌==◌, if◌then◌else◌,
}
use offline_qr_school_attend.Common.Sort.{sort_by}
use offline_qr_school_attend.Notifications.Sms.{is_gsm_char}
use offline_qr_school_attend.Store.{JobStatus, JobKind}
use offline_qr_school_attend.Worker.Balance.{charged, process_claimed_job-charged}
use offline_qr_school_attend.Worker.Claim.{
  AtomicClaim, ReturnOrder, ClaimParams, claim_at_once, claim_eligible_jobs, release_stale,
}
use offline_qr_school_attend.Worker.Claims.{claim_eligible_jobs-at_once}
use offline_qr_school_attend.Worker.Guards.{segments_of_body}
use offline_qr_school_attend.Worker.Process.{process_claimed_job}
use offline_qr_school_attend.Worker.Queue.{
  Fault, QueueOptions, QueueResult, no_tally, process_notification_queue,
}
use offline_qr_school_attend.Worker.Sent.{Sendable, process_claimed_job-Sendable}
use offline_qr_school_attend.Worker.Settled.{Settles, process_claimed_job-Settles}
use offline_qr_school_attend.Worker.Types.{QueuedJob, WorkerDb, Surroundings, SmsProvider, SmsReply}
use offline_qr_school_attend.Worker.Passing.{IsFree}
use offline_qr_school_attend.Worker.Unheld.{process_notification_queue-IsFree}

-- Two jobs of school 1, of which the second was taken up long ago by a worker that is gone.
abbrev waiting_job : QueuedJob
waiting_job = record {
  id = 1;
  school_id = 1;
  student_id = 21;
  recipient_phone = b'9' ∷ b'8' ∷ [];
  language = "en";
  message_body = b'H' ∷ b'i' ∷ [];
  status = JobStatus.queued;
  notification_type = JobKind.absence;
  attempt_count = 0;
  failure_reason = none;
  provider_message_id = none;
  claimed_at = none;
  claimed_by = none;
  next_attempt_at = none;
  queued_at = 20;
  sent_at = none;
  send_after = none;
  attendance_record_id = none;
  kind = JobKind.absence;
}

abbrev stale_job : QueuedJob
stale_job = record waiting_job {
  id = 2;
  status = JobStatus.sending;
  claimed_at = some 10;
  claimed_by = some 5;
  queued_at = 10;
}

abbrev table : WorkerDb
table = record {
  jobs = waiting_job ∷ stale_job ∷ [];
  attempts = [];
  settings = λ school.
      if school == 1
      then some (record {
        sms_enabled = true;
        dlt_principal_entity_id = [];
        dlt_header = [];
        max_segments_per_message = 4;
        segment_balance = some 1;
      })
      else none;
}

abbrev around : Surroundings
around = record {
  production = false;
  school_status = λ school. if school == 1 then some "ACTIVE" else none;
  records = [];
  consents = [];
  templates = [];
}

-- A provider that takes every message, and one that never does.
abbrev willing : SmsProvider
willing = record { is_fake = true; send_sms = λ k params. SmsReply.accepted (some params.job_id) }

abbrev unwilling : SmsProvider
unwilling = record { is_fake = true; send_sms = λ k params. SmsReply.refused [] false }

abbrev claim_all : ClaimParams
claim_all = record { limit = 20; max_retries = 3; worker_id = 9; school_id = none }

-- The rows come back as they were selected.
abbrev as_selected : ReturnOrder
as_selected = record { order = λ js. js; keeps = λ q js. refl }

abbrev options : QueueOptions
options = record { limit = 0; max_retries = 0; school_id = none }

abbrev status_of : QueuedJob → JobStatus
status_of j = j.status

abbrev result_or : QueueResult → Option QueueResult → QueueResult
result_or d none = d
result_or d (some r) = r

abbrev no_result : QueueResult
no_result = record { db = table; processed = 0; tally = no_tally }

-- The balance of one segment is spent on the older job.
abbrev ran : QueueResult
unfolding process_notification_queue
ran = result_or no_result (
    process_notification_queue around willing (AtomicClaim.runs as_selected) options 9 700_000
      (λ k. Fault.no_fault) table)

ran_statuses : map status_of ran.db.jobs ≡ JobStatus.permanent_failure ∷ JobStatus.sent ∷ []
unfolding ran sort_by is_gsm_char
ran_statuses = refl

-- A refused message is due again.
refused_status :
    (process_claimed_job around unwilling 50 3 0 waiting_job table).status ≡ JobStatus.failed
unfolding process_claimed_job is_gsm_char
refused_status = refl

process_claimed_job-Sendable_example : Sendable around willing 0 waiting_job table
unfolding process_claimed_job is_gsm_char
process_claimed_job-Sendable_example =
    process_claimed_job-Sendable around willing 50 3 0 waiting_job table refl

process_claimed_job-Settles_example :
    Settles 50 3 waiting_job table.jobs
      (process_claimed_job around unwilling 50 3 0 waiting_job table).db.jobs
process_claimed_job-Settles_example =
    process_claimed_job-Settles around unwilling 50 3 0 waiting_job table

process_claimed_job-charged_example :
    let p = process_claimed_job around willing 50 3 0 waiting_job table in
    p.db.settings 1 ≡ charged waiting_job (segments_of_body waiting_job) p.status table.settings 1
process_claimed_job-charged_example =
    process_claimed_job-charged around willing 50 3 0 waiting_job table 1

claim_eligible_jobs-at_once_example :
    claim_eligible_jobs AtomicClaim.no_database claim_all 700_000 table.jobs
    ≡ some (claim_at_once claim_all 700_000 (release_stale claim_all 700_000 table.jobs))
claim_eligible_jobs-at_once_example =
    claim_eligible_jobs-at_once AtomicClaim.no_database claim_all 700_000 table.jobs
      (refl, (refl, tt))

process_notification_queue-IsFree_example : All (IsFree 9) ran.db.jobs
unfolding process_notification_queue ran
process_notification_queue-IsFree_example =
    process_notification_queue-IsFree around willing (AtomicClaim.runs as_selected) options 9
      700_000 (λ k. Fault.no_fault) table ran (refl, (refl, tt)) (refl, (refl, tt)) (λ k. refl) refl
