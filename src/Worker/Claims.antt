-- ===== src/Worker/Claims.antt =====
-- The two ways in which the worker claims its jobs come to the same.
use offline_qr_school_attend.Common.{
  ℕ, ◌≡◌, refl, ap, ◌∙◌, true, false, ◌||◌, Option, none, some, List, [], ◌∷◌, map, anyb, find?,
  arith, All, inl, inr, Bool-cases, ◌==◌, ==_iff, if◌then◌else◌,
}
use offline_qr_school_attend.Worker.Claim.{
  AtomicClaim, ReturnOrder, Claimed, ClaimParams, candidates, claim, claim_at_once, claim_each,
  claim_eligible_jobs, claim_in_turn, claim_open, claim_row, has_id, is_empty_claim, is_open,
  is_waiting, release, release_stale, is_stale,
}
use offline_qr_school_attend.Worker.Distinct.{
  HasDistinctIds, Waiting, candidates-HasDistinctIds, candidates_found, candidates_wait,
}
use offline_qr_school_attend.Worker.Types.{QueuedJob}

module _ (p : ClaimParams) (now : ℕ) where
  -- A claim of one row hides no other row.
  find?-claim :
      (c : QueuedJob) (i : ℕ) (jobs : List QueuedJob)
      → (c.id == i) ≡ false
      → find? (is_open i) (map (claim_open p now c.id) jobs) ≡ find? (is_open i) jobs
  find?-claim c i [] h = refl
  find?-claim c i (x ∷ xs) h = elim (Bool-cases (is_open c.id x)) [
    | inl same ↦ rw same (ground (arith, same, h, find?-claim c i xs h))
    | inr elsewhere ↦ rw elsewhere (ground (arith, find?-claim c i xs h))
  ]

  found_after :
      (c : QueuedJob) (cs jobs : List QueuedJob)
      → anyb (has_id c.id) cs ≡ false
      → All (λ d. find? (is_open d.id) jobs ≡ some d) cs
      → All (λ d. find? (is_open d.id) (map (claim_open p now c.id) jobs) ≡ some d) cs
  found_after c [] jobs p' h = tt
  found_after c (d ∷ ds) jobs p' (q, h) = (
    find?-claim c d.id jobs (ground (arith, p')) ∙ q,
    found_after c ds jobs (ground (arith, p')) h,
  )

  not_among :
      (c : QueuedJob) (cs : List QueuedJob) (x : QueuedJob)
      → anyb (has_id c.id) cs ≡ false
      → is_open c.id x ≡ true
      → anyb (has_id x.id) cs ≡ true
      → ⊥
  not_among c cs x h same found =
      let e : x.id ≡ c.id = ground (arith, same) in cc (ap (λ i. anyb (has_id i) cs) e, h, found)

  -- A row after one claim.
  waits_after :
      (c : QueuedJob) (cs : List QueuedJob) (x : QueuedJob)
      → anyb (has_id c.id) cs ≡ false
      → Waiting (c ∷ cs) x
      → Waiting cs (claim_open p now c.id x)
  waits_after c cs x h w = elim (Bool-cases (is_open c.id x)) [
    | inl same ↦ rw same (λ found. absurd (not_among c cs x h same found))
    | inr other ↦ rw other (λ found. w (ground (arith, found)))
  ]

  row_after :
      (c : QueuedJob) (cs : List QueuedJob) (x : QueuedJob)
      → anyb (has_id c.id) cs ≡ false
      → Waiting (c ∷ cs) x
      → claim_row p now cs (claim_open p now c.id x) ≡ claim_row p now (c ∷ cs) x
  row_after c cs x h w = elim (Bool-cases (is_open c.id x)) [
    | inl same ↦
        let e : x.id ≡ c.id = ground (arith, same) in
        let left : anyb (has_id x.id) cs ≡ false = ap (λ i. anyb (has_id i) cs) e ∙ h in
        let id : (c.id == x.id) ≡ true = ground (arith, e) in rw same (rw left (rw id refl))
    | inr other ↦ elim (Bool-cases (c.id == x.id)) [
      | inl id ↦ absurd (
          let waits : is_waiting x.status ≡ true = w (ground (arith, id)) in
          let e : c.id ≡ x.id = (==_iff c.id x.id).0 id in
          let open' : is_open c.id x ≡ true = ground (arith, waits, e) in cc)
      | inr differs ↦ rw other (rw differs refl)
    ]
  ]

  rows_after :
      (c : QueuedJob) (cs jobs : List QueuedJob)
      → anyb (has_id c.id) cs ≡ false
      → All (Waiting (c ∷ cs)) jobs
      → All (Waiting cs) (map (claim_open p now c.id) jobs)
        × (map (claim_row p now cs) (map (claim_open p now c.id) jobs)
            ≡ map (claim_row p now (c ∷ cs)) jobs)
  rows_after c cs [] h w = (tt, refl)
  rows_after c cs (x ∷ xs) h (w, ws) =
      let (waits, same) = rows_after c cs xs h ws in
      ((waits_after c cs x h w, waits), λ i. row_after c cs x h w i ∷ same i)

  -- The loop over rows that are found and wait does what the one statement does.
  pub claim_each-rows :
      (cs jobs : List QueuedJob)
      → HasDistinctIds cs
      → All (λ c. find? (is_open c.id) jobs ≡ some c) cs
      → All (Waiting cs) jobs
      → claim_each p now cs jobs
        ≡ record { jobs = map (claim_row p now cs) jobs; claimed = map (claim p now) cs }
  unfolding claim_each
  claim_each-rows [] jobs d found w = ap (λ js. record { jobs = js; claimed = [] }) (unclaimed jobs)
    where
      unclaimed : (js : List QueuedJob) → js ≡ map (claim_row p now []) js
      unclaimed [] = refl
      unclaimed (x ∷ xs) = ap (λ js. x ∷ js) (unclaimed xs)
  claim_each-rows (c ∷ cs) jobs (d, ds) (f, found) w =
      let (waits, same) = rows_after c cs jobs d w in
      let rest =
        claim_each-rows cs (map (claim_open p now c.id) jobs) ds (found_after c cs jobs d found)
          waits in
      rw f (
        rw rest
          (ap (λ js. record { jobs = js; claimed = claim p now c ∷ map (claim p now) cs }) same))

-- The loop over the candidates, where no two jobs share an identifier.
claim_in_turn-at_once :
    (p : ClaimParams) (now : ℕ) (jobs : List QueuedJob)
    → HasDistinctIds jobs
    → claim_in_turn p now jobs ≡ claim_at_once p now jobs
unfolding claim_at_once
claim_in_turn-at_once p now jobs d =
    claim_each-rows p now (candidates p now jobs) jobs (candidates-HasDistinctIds p now jobs d)
      (candidates_found p now jobs d) (candidates_wait p now jobs d)

-- What a call answers that claims at once: the rows in the order of the database where there are any.
abbrev pub answered : AtomicClaim → Claimed → Option Claimed
answered AtomicClaim.fails c = none
answered AtomicClaim.no_database c = some c
answered (AtomicClaim.runs returned) c =
    some (if is_empty_claim c.claimed then c else record c { claimed = returned.order c.claimed })

anyb-release :
    (p : ClaimParams) (now i : ℕ) (jobs : List QueuedJob)
    → anyb (has_id i) (map (release p now) jobs) ≡ anyb (has_id i) jobs
anyb-release p now i [] = refl
anyb-release p now i (j ∷ js) = elim (Bool-cases (is_stale p now j)) [
  | inl stale ↦ rw stale (ap (λ b. has_id i j || b) (anyb-release p now i js))
  | inr fresh ↦ rw fresh (ap (λ b. has_id i j || b) (anyb-release p now i js))
]

release-id : (p : ClaimParams) (now : ℕ) (j : QueuedJob) → (release p now j).id ≡ j.id
release-id p now j = elim (Bool-cases (is_stale p now j)) [
  | inl stale ↦ rw stale refl
  | inr fresh ↦ rw fresh refl
]

pub release_stale-HasDistinctIds :
    (p : ClaimParams) (now : ℕ) (jobs : List QueuedJob)
    → HasDistinctIds jobs
    → HasDistinctIds (release_stale p now jobs)
unfolding release_stale
release_stale-HasDistinctIds p now [] h = tt
release_stale-HasDistinctIds p now (j ∷ js) (d, h) = (
  ap (λ i. anyb (has_id i) (map (release p now) js)) (release-id p now j)
      ∙ anyb-release p now j.id js
      ∙ d,
  release_stale-HasDistinctIds p now js h,
)

-- A statement that claims nothing leaves the table as it is.
rows_of_none : (p : ClaimParams) (now : ℕ) (js : List QueuedJob) → map (claim_row p now []) js ≡ js
rows_of_none p now [] = refl
rows_of_none p now (x ∷ xs) = ap (λ js. x ∷ js) (rows_of_none p now xs)

nothing_claimed :
    (p : ClaimParams) (now : ℕ) (jobs es : List QueuedJob)
    → is_empty_claim (map (claim p now) es) ≡ true
    → map (claim_row p now es) jobs ≡ jobs
nothing_claimed p now jobs [] h = rows_of_none p now jobs
nothing_claimed p now jobs (e ∷ es) h = absurd (cc)

-- The statement, and after it the loop where it claimed nothing.
at_once_or_in_turn :
    (returned : ReturnOrder) (p : ClaimParams) (now : ℕ) (jobs : List QueuedJob)
    → HasDistinctIds jobs
    → (let at_once = claim_at_once p now jobs in
        if is_empty_claim at_once.claimed
        then claim_in_turn p now at_once.jobs
        else record at_once { claimed = returned.order at_once.claimed })
      ≡ (let at_once = claim_at_once p now jobs in
          if is_empty_claim at_once.claimed
          then at_once
          else record at_once { claimed = returned.order at_once.claimed })
unfolding claim_at_once
at_once_or_in_turn returned p now jobs d =
    let es = candidates p now jobs in
    elim (Bool-cases (is_empty_claim (map (claim p now) es))) [
      | inl empty ↦ rw empty (
          ap (claim_in_turn p now) (nothing_claimed p now jobs es empty)
          ∙ claim_in_turn-at_once p now jobs d)
      | inr taken ↦ rw taken refl
    ]

-- Where no two jobs share an identifier, claimEligibleJobs claims the jobs of the one statement on
-- the table whose stale claims were released, and leaves the same table, whether that statement
-- runs, and returns its rows in any order, or there is no database to run it and the jobs are
-- claimed in turn; where the statement fails the call throws.
pub claim_eligible_jobs-at_once :
    (statement : AtomicClaim) (p : ClaimParams) (now : ℕ) (jobs : List QueuedJob)
    → HasDistinctIds jobs
    → claim_eligible_jobs statement p now jobs
      ≡ answered statement (claim_at_once p now (release_stale p now jobs))
unfolding claim_eligible_jobs
claim_eligible_jobs-at_once (AtomicClaim.runs returned) p now jobs d = ap some (
    at_once_or_in_turn returned p now (release_stale p now jobs)
      (release_stale-HasDistinctIds p now jobs d))
claim_eligible_jobs-at_once AtomicClaim.fails p now jobs d = refl
claim_eligible_jobs-at_once AtomicClaim.no_database p now jobs d = ap some (
    claim_in_turn-at_once p now (release_stale p now jobs)
      (release_stale-HasDistinctIds p now jobs d))
