-- ===== src/Worker/Balance.antt =====
-- The segments that the worker takes off the balance of a school.
use mathlib.Core.Option
use mathlib.Core.Path.{subst}
use offline_qr_school_attend.Common.{
  ℕ, suc, ◌+◌, ◌-◌, ◌≤◌, ◌≡◌, refl, sym, ap, ◌∙◌, Bool, true, false, ◌&&◌, ◌||◌, Option, none, some,
  leb, arith, inl, inr, Bool-cases, if◌then◌else◌, ◌==◌,
}
use offline_qr_school_attend.Common.Result.{Result, throws, returns}
use offline_qr_school_attend.Notifications.Jobs.{is_sent}
use offline_qr_school_attend.Store.{JobStatus}
use offline_qr_school_attend.Worker.Guards.{Stop, effective_settings, segments_of_body}
use offline_qr_school_attend.Worker.Process.{
  Processed, apply_stop, apply_send_result, change_balance, error_or, failure_status, give_back,
  provider_send_error, unknown_worker_error, process_claimed_job, record_refusal, reserve,
  send_or_stop, send_params, send_reserved,
}
use offline_qr_school_attend.Worker.Types.{
  QueuedJob, WorkerDb, WorkerSettings, Surroundings, SmsProvider, SmsReply, FailureReason,
}

-- The row of a school with `n` segments fewer, where it keeps a balance.
abbrev pub deduct : ℕ → WorkerSettings → WorkerSettings
deduct n s = record s { segment_balance = Option.map (λ b. b - n) s.segment_balance }

-- The settings after a job that came to the status: the segments are gone where it was sent.
abbrev pub charged :
    QueuedJob → ℕ → JobStatus → (ℕ → Option WorkerSettings) → ℕ → Option WorkerSettings
charged j n status settings k =
    if k == j.school_id && is_sent status then Option.map (deduct n) (settings k) else settings k

abbrev Charges : QueuedJob → ℕ → WorkerDb → Processed → Type 0
Charges j n db p = (k : ℕ) → p.db.settings k ≡ charged j n p.status db.settings k

not_sent :
    (j : QueuedJob) (n k : ℕ) (status : JobStatus) (settings : ℕ → Option WorkerSettings)
    → is_sent status ≡ false
    → settings k ≡ charged j n status settings k
not_sent j n k status settings h = elim (Bool-cases (k == j.school_id)) [
  | inl same ↦ rw same (rw h refl)
  | inr other ↦ rw other refl
]

apply_stop-Charges :
    (j : QueuedJob) (n : ℕ) (db : WorkerDb) (stop : Stop) → Charges j n db (apply_stop j db stop)
unfolding apply_stop
apply_stop-Charges j n db (Stop.cancel r) k = not_sent j n k JobStatus.cancelled db.settings refl
apply_stop-Charges j n db (Stop.give_up r) k =
    not_sent j n k JobStatus.permanent_failure db.settings refl

failure-is_sent : (b : Bool) → is_sent (failure_status b) ≡ false
failure-is_sent true = refl
failure-is_sent false = refl

-- Where no balance is kept, nothing is taken.
deduct-none : (n : ℕ) (s : WorkerSettings) → s.segment_balance ≡ none → deduct n s ≡ s
deduct-none n s h =
    ap (λ b. record s { segment_balance = b })
      (subst (λ o. Option.map (λ b. b - n) o ≡ o) (sym h) refl)

map-deduct-none :
    (n : ℕ) (o : Option WorkerSettings)
    → (effective_settings o).segment_balance ≡ none
    → Option.map (deduct n) o ≡ o
map-deduct-none n none h = refl
map-deduct-none n (some s) h = ap some (deduct-none n s h)

-- What is taken and given back leaves the row as it was.
restored :
    (n balance : ℕ) (s : WorkerSettings)
    → s.segment_balance ≡ some balance
    → n ≤ balance
    → record (deduct n s) { segment_balance = Option.map (λ b. b + n) (deduct n s).segment_balance }
      ≡ s
restored n balance s h le =
    ap (λ b. record s { segment_balance = b })
      (subst (λ o. Option.map (λ b. b + n) (Option.map (λ b. b - n) o) ≡ o) (sym h)
        (ap some (omega (arith, le))))

map_restored :
    (n balance : ℕ) (o : Option WorkerSettings)
    → (effective_settings o).segment_balance ≡ some balance
    → n ≤ balance
    → Option.map
        (λ (s : WorkerSettings). record s {
          segment_balance = Option.map (λ b. b + n) s.segment_balance;
        })
        (Option.map (deduct n) o)
      ≡ o
map_restored n balance none h le = absurd (cc)
map_restored n balance (some s) h le = ap some (restored n balance s h le)

-- A refusal charges nothing where the segments have been given back.
record_refusal-Charges :
    (now : ℕ) (j : QueuedJob) (n : ℕ) (balance : Option ℕ) (permanent : Bool)
    (reason : FailureReason) (reserved db : WorkerDb)
    → ((k : ℕ) → (give_back j n balance reserved).settings k ≡ db.settings k)
    → Charges j n db (record_refusal now j n balance permanent reason reserved)
unfolding record_refusal
record_refusal-Charges now j n balance permanent reason reserved db h k =
    h k ∙ not_sent j n k (failure_status permanent) db.settings (failure-is_sent permanent)

apply_send_result-Charges :
    (now max : ℕ) (j : QueuedJob) (n : ℕ) (balance : Option ℕ) (reply : SmsReply)
    (reserved db : WorkerDb)
    → ((k : ℕ) → (give_back j n balance reserved).settings k ≡ db.settings k)
    → ((k : ℕ) → reserved.settings k ≡ charged j n JobStatus.sent db.settings k)
    → Charges j n db (apply_send_result now max j n balance reply reserved)
unfolding apply_send_result
apply_send_result-Charges now max j n balance (SmsReply.accepted id) reserved db back taken = taken
apply_send_result-Charges now max j n balance (SmsReply.refused e p) reserved db back taken =
    record_refusal-Charges now j n balance (p || leb max (suc j.attempt_count))
      (FailureReason.message (error_or e provider_send_error)) reserved db back
apply_send_result-Charges now max j n balance (SmsReply.crashed e) reserved db back taken =
    record_refusal-Charges now j n balance (leb max (suc j.attempt_count))
      (FailureReason.message (error_or e unknown_worker_error)) reserved db back

module _ (j : QueuedJob) (n : ℕ) (db : WorkerDb) where
  same_school : (k : ℕ) → (k == j.school_id) ≡ true → k ≡ j.school_id
  same_school k h = ground arith

  not_kept :
      (k : ℕ)
      → (effective_settings (db.settings j.school_id)).segment_balance ≡ none
      → db.settings k ≡ charged j n JobStatus.sent db.settings k
  not_kept k h = elim (Bool-cases (k == j.school_id)) [
    | inl same ↦ rw same (
        sym (
          map-deduct-none n (db.settings k) (
            ap (λ x. (effective_settings (db.settings x)).segment_balance) (same_school k same)
            ∙ h)))
    | inr other ↦ rw other refl
  ]

  taken :
      (k : ℕ)
      → (change_balance j.school_id (λ b. b - n) db).settings k
        ≡ charged j n JobStatus.sent db.settings k
  taken k = elim (Bool-cases (k == j.school_id)) [
    | inl same ↦ rw same refl
    | inr other ↦ rw other refl
  ]

  given_back :
      (balance k : ℕ)
      → (effective_settings (db.settings j.school_id)).segment_balance ≡ some balance
      → n ≤ balance
      → (give_back j n (some balance) (change_balance j.school_id (λ b. b - n) db)).settings k
        ≡ db.settings k
  unfolding give_back
  given_back balance k h le = elim (Bool-cases (k == j.school_id)) [
    | inl same ↦ rw same (
        map_restored n balance (db.settings k)
          (ap (λ x. (effective_settings (db.settings x)).segment_balance) (same_school k same) ∙ h)
          le)
    | inr other ↦ rw other refl
  ]

  send_reserved-Charges :
      (now max : ℕ) (balance : Option ℕ) (reply : SmsReply)
      → (effective_settings (db.settings j.school_id)).segment_balance ≡ balance
      → Charges j n db (send_reserved now max j n balance reply db (reserve j n balance db))
  unfolding reserve give_back
  send_reserved-Charges now max none reply h =
      apply_send_result-Charges now max j n none reply db db (λ k. refl) (λ k. not_kept k h)
  send_reserved-Charges now max (some balance) reply h = elim (Bool-cases (leb n balance)) [
    | inl enough ↦ rw enough (
        apply_send_result-Charges now max j n (some balance) reply
          (change_balance j.school_id (λ b. b - n) db) db
          (λ k. given_back balance k h (ground arith)) (λ k. taken k))
    | inr short ↦
        rw short (apply_stop-Charges j n db (Stop.give_up FailureReason.sms_balance_exceeded))
  ]

send_or_stop-Charges :
    (w : Surroundings) (provider : SmsProvider) (now max k : ℕ) (j : QueuedJob) (db : WorkerDb)
    (checks : Result Stop (Unit {0}))
    → Charges j (segments_of_body j) db (send_or_stop w provider now max k j db checks)
send_or_stop-Charges w provider now max k j db (throws stop) =
    apply_stop-Charges j (segments_of_body j) db stop
send_or_stop-Charges w provider now max k j db (returns _) =
    let s = effective_settings (db.settings j.school_id) in
    send_reserved-Charges j (segments_of_body j) db now max s.segment_balance
      (provider.send_sms k (send_params w s j)) refl

-- processClaimedJob takes the segments of a message off the balance of the job's school, where it
-- keeps one, exactly if the message was sent; after any other outcome the settings of every school
-- are what they were, and those of other schools are in any case.
pub process_claimed_job-charged :
    (w : Surroundings) (provider : SmsProvider) (now max_retries k : ℕ) (j : QueuedJob)
    (db : WorkerDb)
    → let p = process_claimed_job w provider now max_retries k j db in
      (school : ℕ)
      → p.db.settings school ≡ charged j (segments_of_body j) p.status db.settings school
unfolding process_claimed_job
process_claimed_job-charged w provider now max k j db =
    send_or_stop-Charges w provider now max k j db _
