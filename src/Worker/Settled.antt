-- ===== src/Worker/Settled.antt =====
-- What the worker leaves of a job that it has dealt with.
use offline_qr_school_attend.Common.{
  ℕ, suc, ◌+◌, ◌*◌, ◌^◌, ◌<◌, ◌≡◌, ◌⊎◌, refl, Bool, true, false, ◌||◌, Option, none, some, List,
  map, leb, arith, inl, inr,
}
use offline_qr_school_attend.Common.Result.{Result, throws, returns}
use offline_qr_school_attend.Store.{JobStatus}
use offline_qr_school_attend.Worker.Guards.{Stop, effective_settings, segments_of_body}
use offline_qr_school_attend.Worker.Process.{
  apply_stop, apply_send_result, cancelled_row, failed_row, given_up_row, process_claimed_job,
  record_refusal, reserve, send_or_stop, send_params, send_reserved, sent_row, give_back,
}
use offline_qr_school_attend.Worker.Types.{
  QueuedJob, WorkerDb, Surroundings, SmsProvider, SmsReply, FailureReason, update_if,
}

-- The statuses that no run takes up again.
abbrev pub is_final : JobStatus → Bool
is_final JobStatus.sent = true
is_final JobStatus.delivered = true
is_final JobStatus.permanent_failure = true
is_final JobStatus.cancelled = true
is_final _ = false

-- A retry is due: one more attempt was counted, fewer than are allowed, and the next one waits twice
-- as long with each.
pub record Retries (now max : ℕ) (j row : QueuedJob) : Type 0 where
  pub failed : row.status ≡ JobStatus.failed
  pub counted : row.attempt_count ≡ suc j.attempt_count
  pub allowed : row.attempt_count < max
  pub waits : row.next_attempt_at ≡ some (now + 2 ^ row.attempt_count * 1000)

-- Nobody holds the row, and it is done with or due for a retry.
pub record Settled (now max : ℕ) (j row : QueuedJob) : Type 0 where
  pub unheld : row.claimed_by ≡ none
  pub outcome : (is_final row.status ≡ true) ⊎ Retries now max j row

-- The row of the job becomes settled, and no other row changes.
abbrev pub Settles : ℕ → ℕ → QueuedJob → List QueuedJob → List QueuedJob → Type 0
Settles now max j before after =
    (f : QueuedJob → QueuedJob) × (after ≡ map (update_if j.id f) before)
    × ((row : QueuedJob) → Settled now max j (f row))

failed_row-Settled :
    (now max : ℕ) (j : QueuedJob) (permanent : Bool) (reason : FailureReason) (row : QueuedJob)
    → (permanent ≡ false → suc j.attempt_count < max)
    → Settled now max j (failed_row now (suc j.attempt_count) permanent reason row)
failed_row-Settled now max j true reason row h = record { unheld = refl; outcome = inl refl }
failed_row-Settled now max j false reason row h = record {
  unheld = refl;
  outcome = inr (record { failed = refl; counted = refl; allowed = h refl; waits = refl });
}

apply_stop-Settles :
    (now max : ℕ) (j : QueuedJob) (db : WorkerDb) (stop : Stop)
    → Settles now max j db.jobs (apply_stop j db stop).db.jobs
unfolding apply_stop
apply_stop-Settles now max j db (Stop.cancel reason) =
    (cancelled_row reason, refl, λ row. record { unheld = refl; outcome = inl refl })
apply_stop-Settles now max j db (Stop.give_up reason) = (
  given_up_row (suc j.attempt_count) reason,
  refl,
  λ row. record { unheld = refl; outcome = inl refl },
)

give_back-jobs :
    (j : QueuedJob) (n : ℕ) (balance : Option ℕ) (db : WorkerDb)
    → (give_back j n balance db).jobs ≡ db.jobs
unfolding give_back
give_back-jobs j n none db = refl
give_back-jobs j n (some b) db = refl

record_refusal-Settles :
    (now max : ℕ) (j : QueuedJob) (n : ℕ) (balance : Option ℕ) (permanent : Bool)
    (reason : FailureReason) (db : WorkerDb)
    → (permanent ≡ false → suc j.attempt_count < max)
    → Settles now max j db.jobs (record_refusal now j n balance permanent reason db).db.jobs
unfolding record_refusal
record_refusal-Settles now max j n balance permanent reason db h = (
  failed_row now (suc j.attempt_count) permanent reason,
  rw (give_back-jobs j n balance db) refl,
  λ row. failed_row-Settled now max j permanent reason row h,
)

apply_send_result-Settles :
    (now max : ℕ) (j : QueuedJob) (n : ℕ) (balance : Option ℕ) (reply : SmsReply) (db : WorkerDb)
    → Settles now max j db.jobs (apply_send_result now max j n balance reply db).db.jobs
unfolding apply_send_result
apply_send_result-Settles now max j n balance (SmsReply.accepted id) db = (
  sent_row now (suc j.attempt_count) id,
  refl,
  λ row. record { unheld = refl; outcome = inl refl },
)
apply_send_result-Settles now max j n balance (SmsReply.refused e p) db =
    record_refusal-Settles now max j n balance (p || leb max (suc j.attempt_count)) _ db
      (λ h. ground arith)
apply_send_result-Settles now max j n balance (SmsReply.crashed e) db =
    record_refusal-Settles now max j n balance (leb max (suc j.attempt_count)) _ db
      (λ h. ground arith)

reserve-jobs :
    (j : QueuedJob) (n : ℕ) (balance : Option ℕ) (db reserved : WorkerDb)
    → reserve j n balance db ≡ some reserved
    → reserved.jobs ≡ db.jobs
unfolding reserve
reserve-jobs j n none db reserved h = ground arith
reserve-jobs j n (some b) db reserved h = ground arith

send_reserved-Settles :
    (now max : ℕ) (j : QueuedJob) (n : ℕ) (balance : Option ℕ) (reply : SmsReply) (db : WorkerDb)
    (o : Option WorkerDb)
    → reserve j n balance db ≡ o
    → Settles now max j db.jobs (send_reserved now max j n balance reply db o).db.jobs
send_reserved-Settles now max j n balance reply db none e =
    apply_stop-Settles now max j db (Stop.give_up FailureReason.sms_balance_exceeded)
send_reserved-Settles now max j n balance reply db (some reserved) e =
    rw (← reserve-jobs j n balance db reserved e)
      (apply_send_result-Settles now max j n balance reply reserved)

send_or_stop-Settles :
    (w : Surroundings) (provider : SmsProvider) (now max k : ℕ) (j : QueuedJob) (db : WorkerDb)
    (checks : Result Stop (Unit {0}))
    → Settles now max j db.jobs (send_or_stop w provider now max k j db checks).db.jobs
send_or_stop-Settles w provider now max k j db (throws stop) = apply_stop-Settles now max j db stop
send_or_stop-Settles w provider now max k j db (returns _) =
    let s = effective_settings (db.settings j.school_id) in
    send_reserved-Settles now max j (segments_of_body j) s.segment_balance
      (provider.send_sms k (send_params w s j)) db
      (reserve j (segments_of_body j) s.segment_balance db) refl

-- Whatever the guards and the provider say, processClaimedJob leaves every other row as it is and
-- the row of the job with nobody holding it: in a status that no run takes up again, or FAILED with
-- one more attempt counted, fewer than are allowed, and the next attempt 2 ^ attempts seconds away.
pub process_claimed_job-Settles :
    (w : Surroundings) (provider : SmsProvider) (now max_retries k : ℕ) (j : QueuedJob)
    (db : WorkerDb)
    → Settles now max_retries j db.jobs
        (process_claimed_job w provider now max_retries k j db).db.jobs
unfolding process_claimed_job
process_claimed_job-Settles w provider now max k j db =
    send_or_stop-Settles w provider now max k j db _
