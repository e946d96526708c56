-- ===== src/Worker/Claim.antt =====
-- `claimEligibleJobs` of src/services/notificationWorker.ts.
use offline_qr_school_attend.Common.{
  ℕ, ◌+◌, Bool, true, false, ◌&&◌, Option, none, some, List, [], ◌∷◌, map, ◌==◌, ltb, leb, take,
  filterb, find?, anyb, if◌then◌else◌, ◌≡◌,
}
use offline_qr_school_attend.Common.Sort.{sort_by}
use offline_qr_school_attend.Store.{JobStatus}
use offline_qr_school_attend.Worker.Types.{QueuedJob}

-- The options of a call: the number of jobs, the retries, the worker, and the school if one is set.
pub record ClaimParams : Type 0 where
  pub limit : ℕ
  pub max_retries : ℕ
  pub worker_id : ℕ
  pub school_id : Option ℕ

abbrev pub is_sending : JobStatus → Bool
is_sending JobStatus.sending = true
is_sending _ = false

-- `status IN ('QUEUED', 'FAILED', 'SCHEDULED')`
abbrev pub is_waiting : JobStatus → Bool
is_waiting JobStatus.queued = true
is_waiting JobStatus.failed = true
is_waiting JobStatus.scheduled = true
is_waiting _ = false

-- `schoolId ? eq(schoolId) : …`
abbrev pub in_school : Option ℕ → ℕ → Bool
in_school none school = true
in_school (some s) school = school == s

-- A time that is NULL, or that has come.
abbrev pub has_come : ℕ → Option ℕ → Bool
has_come now none = true
has_come now (some t) = leb t now

-- `claimed_at < now - 10 min`, which a NULL does not meet.
abbrev pub is_stale_at : ℕ → Option ℕ → Bool
is_stale_at now none = false
is_stale_at now (some t) = ltb (t + 600_000) now

abbrev pub is_stale : ClaimParams → ℕ → QueuedJob → Bool
is_stale p now j =
    is_sending j.status && (is_stale_at now j.claimed_at && in_school p.school_id j.school_id)

abbrev pub release : ClaimParams → ℕ → QueuedJob → QueuedJob
release p now j =
    if is_stale p now j
    then record j { status = JobStatus.queued; claimed_at = none; claimed_by = none }
    else j

unfoldable pub release_stale : ClaimParams → ℕ → List QueuedJob → List QueuedJob
release_stale p now jobs = map (release p now) jobs

unfoldable pub is_eligible : ClaimParams → ℕ → QueuedJob → Bool
is_eligible p now j =
    is_waiting j.status
    && (in_school p.school_id j.school_id
        && (ltb j.attempt_count p.max_retries
            && (has_come now j.next_attempt_at && has_come now j.send_after)))

abbrev pub queue_time : QueuedJob → ℕ
queue_time j = j.queued_at

-- `ORDER BY queued_at ASC LIMIT …`
unfoldable pub candidates : ClaimParams → ℕ → List QueuedJob → List QueuedJob
unfolding is_eligible
candidates p now jobs = take p.limit (sort_by queue_time (filterb (is_eligible p now) jobs))

abbrev pub claim : ClaimParams → ℕ → QueuedJob → QueuedJob
claim p now j = record j {
  status = JobStatus.sending;
  claimed_at = some now;
  claimed_by = some p.worker_id;
}

pub record Claimed : Type 0 where
  pub jobs : List QueuedJob
  pub claimed : List QueuedJob

abbrev pub has_id : ℕ → QueuedJob → Bool
has_id id j = j.id == id

abbrev pub claim_row : ClaimParams → ℕ → List QueuedJob → QueuedJob → QueuedJob
claim_row p now eligible j = if anyb (has_id j.id) eligible then claim p now j else j

-- The one statement on a PostgreSQL database: the rows whose identifiers are in the selection.
unfoldable pub claim_at_once : ClaimParams → ℕ → List QueuedJob → Claimed
unfolding candidates
claim_at_once p now jobs =
    let eligible = candidates p now jobs in
    record { jobs = map (claim_row p now eligible) jobs; claimed = map (claim p now) eligible }

-- One update of the loop: the row with the identifier, if its status still allows it.
abbrev pub is_open : ℕ → QueuedJob → Bool
is_open id j = j.id == id && is_waiting j.status

abbrev pub claim_open : ClaimParams → ℕ → ℕ → QueuedJob → QueuedJob
claim_open p now id j = if is_open id j then claim p now j else j

abbrev pub push_claimed : Option QueuedJob → ClaimParams → ℕ → List QueuedJob → List QueuedJob
push_claimed none p now claimed = claimed
push_claimed (some j) p now claimed = claim p now j ∷ claimed

-- The loop over the candidates, with the rows it claims.
unfoldable pub claim_each : ClaimParams → ℕ → List QueuedJob → List QueuedJob → Claimed
claim_each p now [] jobs = record { jobs = jobs; claimed = [] }
claim_each p now (c ∷ cs) jobs =
    let rest = claim_each p now cs (map (claim_open p now c.id) jobs) in
    record rest { claimed = push_claimed (find? (is_open c.id) jobs) p now rest.claimed }

abbrev pub is_empty_claim : List QueuedJob → Bool
is_empty_claim [] = true
is_empty_claim (_ ∷ _) = false

-- The order in which the database returns the rows of an update, which it does not promise: every
-- row is among them.
pub record ReturnOrder : Type 0 where
  pub order : List QueuedJob → List QueuedJob
  pub keeps : (q : QueuedJob → Bool) (js : List QueuedJob) → anyb q (order js) ≡ anyb q js

-- What the statement does: it claims, or it fails, and with it the transaction around it.
pub data AtomicClaim : Type 0 where
  runs : ReturnOrder → AtomicClaim
  fails no_database : AtomicClaim

abbrev pub claim_in_turn : ClaimParams → ℕ → List QueuedJob → Claimed
claim_in_turn p now jobs = claim_each p now (candidates p now jobs) jobs

-- `claimEligibleJobs`; `none` is an error: ATOMIC_QUEUE_CLAIM_FAILED in production, and elsewhere that
-- of the selection after it, which a failed transaction refuses.
unfoldable pub claim_eligible_jobs : AtomicClaim → ClaimParams → ℕ → List QueuedJob → Option Claimed
unfolding release_stale claim_at_once claim_each candidates
claim_eligible_jobs (AtomicClaim.runs returned) p now jobs =
    let free = release_stale p now jobs in
    let at_once = claim_at_once p now free in
    some (
      if is_empty_claim at_once.claimed
      then claim_in_turn p now at_once.jobs
      else record at_once { claimed = returned.order at_once.claimed })
claim_eligible_jobs AtomicClaim.fails p now jobs = none
claim_eligible_jobs AtomicClaim.no_database p now jobs =
    some (claim_in_turn p now (release_stale p now jobs))
