-- ===== src/Worker/Sent.antt =====
-- When the worker sends a message.
use offline_qr_school_attend.Common.{
  ℕ, suc, ◌≤◌, ◌≡◌, refl, Bool, true, false, ◌||◌, Option, none, some, is_some, leb, arith,
}
use offline_qr_school_attend.Common.Result.{Result, throws, returns}
use offline_qr_school_attend.Store.{JobStatus}
use offline_qr_school_attend.Worker.Guards.{Stop, check_job, effective_settings, segments_of_body}
use offline_qr_school_attend.Worker.Process.{
  apply_stop, apply_send_result, failure_status, process_claimed_job, record_refusal, reserve,
  send_or_stop, send_params, send_reserved,
}
use offline_qr_school_attend.Worker.Types.{
  QueuedJob, WorkerDb, Surroundings, SmsProvider, SmsReply, FailureReason,
}
use offline_qr_school_attend.Worker.Checked.{Checked, check_job-Checked}

-- The balance is not kept, or covers the message.
abbrev pub IsCovered : Option ℕ → ℕ → Type 0
IsCovered none n = Unit
IsCovered (some balance) n = n ≤ balance

apply_stop-status :
    (j : QueuedJob) (db : WorkerDb) (stop : Stop)
    → (apply_stop j db stop).status ≡ JobStatus.sent
    → ⊥
unfolding apply_stop
apply_stop-status j db (Stop.cancel r) h = cc
apply_stop-status j db (Stop.give_up r) h = cc

failure_status-ne : (b : Bool) → failure_status b ≡ JobStatus.sent → ⊥
failure_status-ne true h = cc
failure_status-ne false h = cc

apply_send_result-status :
    (now max n : ℕ) (j : QueuedJob) (balance : Option ℕ) (reply : SmsReply) (db : WorkerDb)
    → (apply_send_result now max j n balance reply db).status ≡ JobStatus.sent
    → (id : Option ℕ) × (reply ≡ SmsReply.accepted id)
unfolding apply_send_result record_refusal
apply_send_result-status now max n j balance (SmsReply.accepted id) db h = (id, refl)
apply_send_result-status now max n j balance (SmsReply.refused e p) db h =
    absurd (failure_status-ne (p || leb max (suc j.attempt_count)) h)
apply_send_result-status now max n j balance (SmsReply.crashed e) db h =
    absurd (failure_status-ne (leb max (suc j.attempt_count)) h)

send_reserved-status :
    (now max n : ℕ) (j : QueuedJob) (balance : Option ℕ) (reply : SmsReply) (db : WorkerDb)
    (o : Option WorkerDb)
    → (send_reserved now max j n balance reply db o).status ≡ JobStatus.sent
    → (is_some o ≡ true) × ((id : Option ℕ) × (reply ≡ SmsReply.accepted id))
send_reserved-status now max n j balance reply db none h =
    absurd (apply_stop-status j db (Stop.give_up FailureReason.sms_balance_exceeded) h)
send_reserved-status now max n j balance reply db (some reserved) h =
    (refl, apply_send_result-status now max n j balance reply reserved h)

reserve-IsCovered :
    (j : QueuedJob) (n : ℕ) (balance : Option ℕ) (db : WorkerDb)
    → is_some (reserve j n balance db) ≡ true
    → IsCovered balance n
unfolding reserve
reserve-IsCovered j n none db h = tt
reserve-IsCovered j n (some b) db h = ground arith

-- What holds of a job whose message went out.
pub record Sendable (w : Surroundings) (provider : SmsProvider) (k : ℕ) (j : QueuedJob)
    (db : WorkerDb) : Type 0 where
  pub checked : Checked w provider (db.settings j.school_id) j
  pub covered :
      IsCovered (effective_settings (db.settings j.school_id)).segment_balance (segments_of_body j)
  pub reply :
      (id : Option ℕ) × (provider.send_sms k
          (send_params w (effective_settings (db.settings j.school_id)) j)
        ≡ SmsReply.accepted id)

send_or_stop-Sendable :
    (w : Surroundings) (provider : SmsProvider) (now max k : ℕ) (j : QueuedJob) (db : WorkerDb)
    (checks : Result Stop (Unit {0}))
    → check_job w provider (db.settings j.school_id) j ≡ checks
    → (send_or_stop w provider now max k j db checks).status ≡ JobStatus.sent
    → Sendable w provider k j db
send_or_stop-Sendable w provider now max k j db (throws stop) e h =
    absurd (apply_stop-status j db stop h)
send_or_stop-Sendable w provider now max k j db (returns _) e h =
    let s = effective_settings (db.settings j.school_id) in
    let n = segments_of_body j in
    let (enough, reply) =
      send_reserved-status now max n j s.segment_balance (provider.send_sms k (send_params w s j))
        db (reserve j n s.segment_balance db) h in
    record {
      checked = check_job-Checked w provider (db.settings j.school_id) j e;
      covered = reserve-IsCovered j n s.segment_balance db enough;
      reply = reply;
    }

-- A job that processClaimedJob reports as SENT had an active school; settings where the code runs in
-- production, and SMS enabled where there are settings; ABSENT as the status of its record, if it is
-- an absence job whose record is found; the guardian's consent to absence messages; a body that is
-- none of the three markers; the DLT identifiers in production, unless the provider is a fake; a
-- number of segments within a limit that is set; and a balance that covers it. And the provider took
-- it.
pub process_claimed_job-Sendable :
    (w : Surroundings) (provider : SmsProvider) (now max_retries k : ℕ) (j : QueuedJob)
    (db : WorkerDb)
    → (process_claimed_job w provider now max_retries k j db).status ≡ JobStatus.sent
    → Sendable w provider k j db
unfolding process_claimed_job
process_claimed_job-Sendable w provider now max k j db h =
    send_or_stop-Sendable w provider now max k j db _ refl h
