-- ===== src/Worker/Unheld.antt =====
-- A run of the worker lets go of every job that it claims.
use mathlib.Core.Path.{subst}
use offline_qr_school_attend.Common.{
  ℕ, suc, ◌≡◌, ◌⊎◌, refl, sym, ap, ◌∙◌, Bool, true, false, Option, none, some, List, [], ◌∷◌, map,
  anyb, find?, arith, All, inl, inr, Bool-cases, ◌==◌, ==_iff, leb,
}
use offline_qr_school_attend.Worker.Claim.{
  AtomicClaim, ClaimParams, Claimed, candidates, claim, claim_at_once, claim_row, is_empty_claim,
  has_id, is_open, is_stale, release_stale,
}
use offline_qr_school_attend.Worker.Claims.{
  claim_eligible_jobs-at_once, answered, release_stale-HasDistinctIds,
}
use offline_qr_school_attend.Worker.Distinct.{
  HasDistinctIds, IsFoundIn, Waiting, all_found, candidates_found, candidates_wait,
}
use offline_qr_school_attend.Worker.Process.{failed_row}
use offline_qr_school_attend.Worker.Queue.{
  Fault, no_tally, QueueOptions, QueueResult, Run, claim_params, fail_own,
  process_notification_queue, record_failure, run_claimed, run_job, run_jobs,
}
use offline_qr_school_attend.Worker.Settled.{process_claimed_job-Settles}
use offline_qr_school_attend.Worker.Types.{
  QueuedJob, WorkerDb, Surroundings, SmsProvider, update_if,
}
use offline_qr_school_attend.Worker.Passing.{
  is_held_by, IsFree, same_key, IsAwaited, pass_all, update_if-Passes, fail_own-Passes,
}

-- The failure of a job is recorded.
abbrev pub is_recorded : Fault → Bool
is_recorded (Fault.both_fault error) = false
is_recorded _ = true

module _ (worker : ℕ) (w : Surroundings) (provider : SmsProvider) (now max : ℕ) where
  run_job-IsAwaited :
      (fault : Fault) (k : ℕ) (j : QueuedJob) (js : List QueuedJob) (r : Run)
      → is_recorded fault ≡ true
      → All (IsAwaited worker (j ∷ js)) r.db.jobs
      → All (IsAwaited worker js) (run_job w provider now max fault k j r).db.jobs
  unfolding run_job record_failure
  run_job-IsAwaited Fault.no_fault k j js r h a =
      let (f, e, settled) = process_claimed_job-Settles w provider now max k j r.db in
      subst (All (IsAwaited worker js)) (sym e) (
        pass_all worker j js (update_if j.id f) r.db.jobs
          (update_if-Passes j f (λ row. (settled row).unheld)) a)
  run_job-IsAwaited (Fault.job_fault error) k j js r h a =
      pass_all worker j js
        (fail_own j (failed_row now (suc j.attempt_count) (leb max (suc j.attempt_count)) _))
        r.db.jobs (fail_own-Passes j _ (λ row. refl)) a
  run_job-IsAwaited (Fault.both_fault error) k j js r h a = absurd (cc)

  IsFree-at_end :
      (rows : List QueuedJob) → All (IsAwaited worker []) rows → All (IsFree worker) rows
  IsFree-at_end [] h = tt
  IsFree-at_end (row ∷ rows) (p, h) = (
    elim (Bool-cases (is_held_by worker row)) [ inl held ↦ absurd (cc (p held)) | inr free ↦ free ],
    IsFree-at_end rows h,
  )

  run_jobs-IsFree :
      (faults : ℕ → Fault) (k : ℕ) (js : List QueuedJob) (r : Run)
      → ((i : ℕ) → is_recorded (faults i) ≡ true)
      → All (IsAwaited worker js) r.db.jobs
      → All (IsFree worker) (run_jobs w provider now max faults k js r).db.jobs
  unfolding run_jobs
  run_jobs-IsFree faults k [] r h a = IsFree-at_end r.db.jobs a
  run_jobs-IsFree faults k (j ∷ js) r h a =
      run_jobs-IsFree faults (suc k) js (run_job w provider now max (faults k) k j r) h
        (run_job-IsAwaited (faults k) k j js r (h k) a)

module _ (p : ClaimParams) (now : ℕ) where
  release-IsFree :
      (worker : ℕ) (jobs : List QueuedJob)
      → All (IsFree worker) jobs
      → All (IsFree worker) (release_stale p now jobs)
  unfolding release_stale
  release-IsFree worker [] h = tt
  release-IsFree worker (j ∷ js) (q, h) = (
    elim (Bool-cases (is_stale p now j)) [ inl stale ↦ rw stale refl | inr fresh ↦ rw fresh q ],
    release-IsFree worker js h,
  )

  -- The claimed jobs hold the key of a row whose identifier is in the selection.
  key_claimed :
      (jobs es : List QueuedJob) (j : QueuedJob)
      → find? (is_open j.id) jobs ≡ some j
      → All (λ c. find? (is_open c.id) jobs ≡ some c) es
      → anyb (has_id j.id) es ≡ true
      → anyb (same_key j) (map (claim p now) es) ≡ true
  key_claimed jobs [] j f h k = absurd (cc)
  key_claimed jobs (c ∷ es) j f (g, h) k = elim (Bool-cases (c.id == j.id)) [
    | inl same ↦
        let e : c.id ≡ j.id = (==_iff c.id j.id).0 same in
        let found : some c ≡ some j = sym g ∙ ap (λ i. find? (is_open i) jobs) e ∙ f in
        let school : c.school_id ≡ j.school_id = cc in ground (arith, e, school)
    | inr other ↦ ground (arith, other, k, key_claimed jobs es j f h)
  ]

  row_claimed :
      (jobs es : List QueuedJob) (j : QueuedJob)
      → IsFoundIn jobs j
      → Waiting es j
      → All (λ c. find? (is_open c.id) jobs ≡ some c) es
      → IsFree p.worker_id j
      → IsAwaited p.worker_id (map (claim p now) es) (claim_row p now es j)
  row_claimed jobs es j f w h free = elim (Bool-cases (anyb (has_id j.id) es)) [
    | inl chosen ↦ rw chosen (λ held. key_claimed jobs es j (f (w chosen)) h chosen)
    | inr left ↦ rw left (λ held. absurd (cc (free, held)))
  ]

  rows_claimed :
      (jobs es rows : List QueuedJob)
      → All (IsFoundIn jobs) rows
      → All (Waiting es) rows
      → All (λ c. find? (is_open c.id) jobs ≡ some c) es
      → All (IsFree p.worker_id) rows
      → All (IsAwaited p.worker_id (map (claim p now) es)) (map (claim_row p now es) rows)
  rows_claimed jobs es [] f w h free = tt
  rows_claimed jobs es (j ∷ js) (f, fs) (w, ws) h (q, free) =
      (row_claimed jobs es j f w h q, rows_claimed jobs es js fs ws h free)

  claim_at_once-IsAwaited :
      (jobs : List QueuedJob)
      → HasDistinctIds jobs
      → All (IsFree p.worker_id) jobs
      → let c = claim_at_once p now jobs in All (IsAwaited p.worker_id c.claimed) c.jobs
  unfolding claim_at_once
  claim_at_once-IsAwaited jobs d free =
      rows_claimed jobs (candidates p now jobs) jobs (all_found jobs d)
        (candidates_wait p now jobs d) (candidates_found p now jobs d) free

-- The rows claimed at once, in some order.
record InSomeOrder (c c' : Claimed) : Type 0 where
  same_jobs : c'.jobs ≡ c.jobs
  same_claims : (q : QueuedJob → Bool) → anyb q c'.claimed ≡ anyb q c.claimed

answered-InSomeOrder :
    (statement : AtomicClaim) (c : Claimed) (o : Option Claimed)
    → o ≡ answered statement c
    → (o ≡ none) ⊎ ((c' : Claimed) × (o ≡ some c') × InSomeOrder c c')
answered-InSomeOrder AtomicClaim.fails c o h = inl h
answered-InSomeOrder AtomicClaim.no_database c o h =
    inr (c, h, record { same_jobs = refl; same_claims = λ q. refl })
answered-InSomeOrder (AtomicClaim.runs returned) c o h =
    elim (Bool-cases (is_empty_claim c.claimed)) [
      | inl empty ↦ inr (c, h ∙ rw empty refl, record { same_jobs = refl; same_claims = λ q. refl })
      | inr taken ↦ inr (
        record c { claimed = returned.order c.claimed },
        h ∙ rw taken refl,
        record { same_jobs = refl; same_claims = λ q. returned.keeps q c.claimed },
      )
    ]

IsAwaited-in_some_order :
    (worker : ℕ) (js js' rows : List QueuedJob)
    → ((q : QueuedJob → Bool) → anyb q js' ≡ anyb q js)
    → All (IsAwaited worker js) rows
    → All (IsAwaited worker js') rows
IsAwaited-in_some_order worker js js' [] h a = tt
IsAwaited-in_some_order worker js js' (row ∷ rows) h (p, a) =
    (λ held. h (same_key row) ∙ p held, IsAwaited-in_some_order worker js js' rows h a)

run_claimed-IsFree :
    (w : Surroundings) (provider : SmsProvider) (now max worker : ℕ) (faults : ℕ → Fault)
    (db : WorkerDb) (c : Claimed) (o : Option Claimed) (r : QueueResult)
    → ((i : ℕ) → is_recorded (faults i) ≡ true)
    → (o ≡ none) ⊎ ((c' : Claimed) × (o ≡ some c') × InSomeOrder c c')
    → All (IsAwaited worker c.claimed) c.jobs
    → run_claimed w provider now max faults db o ≡ some r
    → All (IsFree worker) r.db.jobs
run_claimed-IsFree w provider now max worker faults db c none r h k a e = absurd (cc)
run_claimed-IsFree w provider now max worker faults db c (some c') r h k a e =
    let a' : All (IsAwaited worker c'.claimed) c'.jobs = elim k [
      | inl q ↦ absurd (cc (q))
      | inr (d, q, k) ↦
          let moved : All (IsAwaited worker d.claimed) d.jobs =
            subst (All (IsAwaited worker d.claimed)) (sym k.same_jobs)
              (IsAwaited-in_some_order worker c.claimed d.claimed c.jobs k.same_claims a) in
          subst (λ (x : Claimed). All (IsAwaited worker x.claimed) x.jobs) (cc (q)) moved
    ] in
    subst (λ (x : QueueResult). All (IsFree worker) x.db.jobs) (result _ r e)
      (run_jobs-IsFree worker w provider now max faults 0 c'.claimed
        (record { db = record db { jobs = c'.jobs }; tally = no_tally }) h a')
  where
    result : (x y : QueueResult) → (let o : Option QueueResult = some x in o ≡ some y) → x ≡ y
    result x y q = cc

-- A run after which the failure of every job was sent or recorded leaves no job that its worker
-- holds, where no two jobs share an identifier and the worker held none before.
pub process_notification_queue-IsFree :
    (w : Surroundings) (provider : SmsProvider) (statement : AtomicClaim) (o : QueueOptions)
    (worker now : ℕ) (faults : ℕ → Fault) (db : WorkerDb) (r : QueueResult)
    → HasDistinctIds db.jobs
    → All (IsFree worker) db.jobs
    → ((i : ℕ) → is_recorded (faults i) ≡ true)
    → process_notification_queue w provider statement o worker now faults db ≡ some r
    → All (IsFree worker) r.db.jobs
unfolding process_notification_queue claim_params
process_notification_queue-IsFree w provider statement o worker now faults db r d free h e =
    let p = claim_params o worker in
    let released = release_stale p now db.jobs in
    run_claimed-IsFree w provider now p.max_retries worker faults db (claim_at_once p now released)
      _ r h
      (answered-InSomeOrder statement (claim_at_once p now released) _
        (claim_eligible_jobs-at_once statement p now db.jobs d))
      (claim_at_once-IsAwaited p now released (release_stale-HasDistinctIds p now db.jobs d)
        (release-IsFree p now worker db.jobs free))
      e
