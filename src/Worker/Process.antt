-- ===== src/Worker/Process.antt =====
-- `processClaimedJob` of src/services/notificationWorker.ts: the reservation of segments, the call
-- of the provider, and what is recorded of it.
use mathlib.Core.Option
use text.Mathlib.Text.{◌==◌ as str_eq}
use offline_qr_school_attend.Common.{
  ℕ, suc, ◌+◌, ◌-◌, ◌*◌, ◌^◌, Bool, ◌&&◌, ◌||◌, Option, none, some, List, [], ◌∷◌, ◌++◌, map, ◌==◌,
  leb, find?, if◌then◌else◌,
}
use offline_qr_school_attend.Common.Result.{Result, throws, returns}
use offline_qr_school_attend.Notifications.Jobs.{same_kind}
use offline_qr_school_attend.Store.{JobStatus}
use offline_qr_school_attend.Worker.Types.{
  FailureReason, QueuedJob, WorkerSettings, WorkerDb, Template, Surroundings, SmsSendParams,
  SmsReply, SmsProvider, update_if,
}
use offline_qr_school_attend.Worker.Guards.{effective_settings, Stop, segments_of_body, check_job}

-- The row of a job after it was dealt with: nobody holds it any more.
abbrev pub unclaimed : QueuedJob → QueuedJob
unclaimed j = record j { claimed_at = none; claimed_by = none }

abbrev pub update_job : ℕ → (QueuedJob → QueuedJob) → WorkerDb → WorkerDb
update_job id f db = record db { jobs = map (update_if id f) db.jobs }

abbrev pub insert_attempt : ℕ → ℕ → JobStatus → Option FailureReason → WorkerDb → WorkerDb
insert_attempt id n status error db = record db {
  attempts =
      db.attempts
      ++ record { job_id = id; attempt_number = n; status = status; error_message = error } ∷ [];
}

abbrev pub cancelled_row : FailureReason → QueuedJob → QueuedJob
cancelled_row reason row = record (unclaimed row) {
  status = JobStatus.cancelled;
  failure_reason = some reason;
}

abbrev pub given_up_row : ℕ → FailureReason → QueuedJob → QueuedJob
given_up_row attempt reason row = record (unclaimed row) {
  status = JobStatus.permanent_failure;
  failure_reason = some reason;
  attempt_count = attempt;
}

pub record Processed : Type 0 where
  pub db : WorkerDb
  pub status : JobStatus

unfoldable pub apply_stop : QueuedJob → WorkerDb → Stop → Processed
apply_stop j db (Stop.cancel reason) = record {
  db = update_job j.id (cancelled_row reason) db;
  status = JobStatus.cancelled;
}
apply_stop j db (Stop.give_up reason) = record {
  db =
      insert_attempt j.id (suc j.attempt_count) JobStatus.permanent_failure (some reason)
        (update_job j.id (given_up_row (suc j.attempt_count) reason) db);
  status = JobStatus.permanent_failure;
}

-- `update school_sms_settings … where school_id = …`
abbrev pub change_balance : ℕ → (ℕ → ℕ) → WorkerDb → WorkerDb
change_balance school f db = record db {
  settings = λ k.
      if k == school
      then Option.map
          (λ (s : WorkerSettings). record s { segment_balance = Option.map f s.segment_balance })
          (db.settings k)
      else db.settings k;
}

-- The segments are taken off a balance that is kept and covers them; a balance that is not kept is
-- not touched, and `none` says that the balance is too small.
unfoldable pub reserve : QueuedJob → ℕ → Option ℕ → WorkerDb → Option WorkerDb
reserve j n none db = some db
reserve j n (some balance) db =
    if leb n balance then some (change_balance j.school_id (λ b. b - n) db) else none

-- Given back only where it was taken.
unfoldable pub give_back : QueuedJob → ℕ → Option ℕ → WorkerDb → WorkerDb
give_back j n none db = db
give_back j n (some balance) db = change_balance j.school_id (λ b. b + n) db

abbrev is_template_of : QueuedJob → Template → Bool
is_template_of j t =
    t.school_id == j.school_id
    && (same_kind t.template_code j.notification_type && str_eq t.language j.language)

abbrev template_id : Option Template → List ℕ
template_id none = []
template_id (some t) = t.dlt_template_id

unfoldable pub send_params : Surroundings → WorkerSettings → QueuedJob → SmsSendParams
send_params w s j = record {
  to = j.recipient_phone;
  text = j.message_body;
  dlt_principal_entity_id = s.dlt_principal_entity_id;
  dlt_header = s.dlt_header;
  dlt_template_id = template_id (find? (is_template_of j) w.templates);
  job_id = j.id;
}

abbrev pub sent_row : ℕ → ℕ → Option ℕ → QueuedJob → QueuedJob
sent_row now attempt message_id row = record (unclaimed row) {
  status = JobStatus.sent;
  provider_message_id = message_id;
  attempt_count = attempt;
  sent_at = some now;
  failure_reason = none;
  next_attempt_at = none;
}

-- `permanent ? null : new Date(Date.now() + Math.pow(2, attemptNumber) * 1000)`
abbrev pub retry_at : ℕ → ℕ → Bool → Option ℕ
retry_at now attempt permanent = if permanent then none else some (now + 2 ^ attempt * 1000)

abbrev pub failure_status : Bool → JobStatus
failure_status permanent = if permanent then JobStatus.permanent_failure else JobStatus.failed

abbrev pub failed_row : ℕ → ℕ → Bool → FailureReason → QueuedJob → QueuedJob
failed_row now attempt permanent reason row = record (unclaimed row) {
  status = failure_status permanent;
  attempt_count = attempt;
  failure_reason = some reason;
  next_attempt_at = retry_at now attempt permanent;
}

-- A failure, with the segments given back: the branch of a refusal and that of an error.
unfoldable pub record_refusal :
    ℕ → QueuedJob → ℕ → Option ℕ → Bool → FailureReason → WorkerDb → Processed
unfolding give_back
record_refusal now j n balance permanent reason db =
    let attempt = suc j.attempt_count in
    record {
      db =
          insert_attempt j.id attempt (failure_status permanent) (some reason)
            (update_job j.id (failed_row now attempt permanent reason) (give_back j n balance db));
      status = failure_status permanent;
    }

abbrev pub error_or : List ℕ → List ℕ → List ℕ
error_or [] fallback = fallback
error_or (c ∷ s) fallback = c ∷ s

abbrev pub provider_send_error : List ℕ
provider_send_error =
    b'P' ∷ b'R' ∷ b'O' ∷ b'V' ∷ b'I' ∷ b'D' ∷ b'E' ∷ b'R' ∷ b'_' ∷ b'S' ∷ b'E' ∷ b'N' ∷ b'D' ∷ b'_'
    ∷ b'E' ∷ b'R' ∷ b'R' ∷ b'O' ∷ b'R' ∷ []

abbrev pub unknown_worker_error : List ℕ
unknown_worker_error =
    b'U' ∷ b'N' ∷ b'K' ∷ b'N' ∷ b'O' ∷ b'W' ∷ b'N' ∷ b'_' ∷ b'W' ∷ b'O' ∷ b'R' ∷ b'K' ∷ b'E' ∷ b'R'
    ∷ b'_' ∷ b'E' ∷ b'R' ∷ b'R' ∷ b'O' ∷ b'R' ∷ []

unfoldable pub apply_send_result :
    ℕ → ℕ → QueuedJob → ℕ → Option ℕ → SmsReply → WorkerDb → Processed
unfolding record_refusal
apply_send_result now max_retries j n balance (SmsReply.accepted message_id) db =
    let attempt = suc j.attempt_count in
    record {
      db =
          insert_attempt j.id attempt JobStatus.sent none
            (update_job j.id (sent_row now attempt message_id) db);
      status = JobStatus.sent;
    }
apply_send_result now max_retries j n balance (SmsReply.refused error is_permanent) db =
    record_refusal now j n balance (is_permanent || leb max_retries (suc j.attempt_count))
      (FailureReason.message (error_or error provider_send_error)) db
apply_send_result now max_retries j n balance (SmsReply.crashed error) db =
    record_refusal now j n balance (leb max_retries (suc j.attempt_count))
      (FailureReason.message (error_or error unknown_worker_error)) db

abbrev pub send_reserved :
    ℕ → ℕ → QueuedJob → ℕ → Option ℕ → SmsReply → WorkerDb → Option WorkerDb → Processed
send_reserved now max_retries j n balance reply db none =
    apply_stop j db (Stop.give_up FailureReason.sms_balance_exceeded)
send_reserved now max_retries j n balance reply db (some reserved) =
    apply_send_result now max_retries j n balance reply reserved

-- `processClaimedJob`, where the provider is in its call `k`.
abbrev pub send_or_stop :
    Surroundings
    → SmsProvider
    → ℕ
    → ℕ
    → ℕ
    → QueuedJob
    → WorkerDb
    → Result Stop (Unit {0})
    → Processed
send_or_stop w provider now max_retries k j db (throws stop) = apply_stop j db stop
send_or_stop w provider now max_retries k j db (returns _) =
    let s = effective_settings (db.settings j.school_id) in
    let n = segments_of_body j in
    send_reserved now max_retries j n s.segment_balance (provider.send_sms k (send_params w s j)) db
      (reserve j n s.segment_balance db)

unfoldable pub process_claimed_job :
    Surroundings → SmsProvider → ℕ → ℕ → ℕ → QueuedJob → WorkerDb → Processed
unfolding check_job apply_stop apply_send_result reserve segments_of_body send_params
process_claimed_job w provider now max_retries k j db =
    send_or_stop w provider now max_retries k j db
      (check_job w provider (db.settings j.school_id) j)
