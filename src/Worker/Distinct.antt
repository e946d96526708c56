-- ===== src/Worker/Distinct.antt =====
-- The identifiers of the jobs: one row for each.
use mathlib.Core.Path.{subst}
use offline_qr_school_attend.Common.{
  ℕ, ◌≡◌, refl, Bool, true, false, none, some, List, [], ◌∷◌, anyb, filterb, find?, take, zero, suc,
  arith, All, All-take, All-filterb, inl, inr, Bool-cases, ◌==◌, ==_iff, is_some, leb,
}
use offline_qr_school_attend.Common.Sort.{place, sort_by, anyb-place, anyb-sort_by, All-sort_by}
use offline_qr_school_attend.Worker.Claim.{
  ClaimParams, candidates, has_id, is_eligible, is_open, is_waiting, queue_time,
}
use offline_qr_school_attend.Worker.Types.{QueuedJob}

-- The primary key of `notification_jobs`.
abbrev pub HasDistinctIds : List QueuedJob → Type 0
HasDistinctIds [] = Unit
HasDistinctIds (j ∷ js) = (anyb (has_id j.id) js ≡ false) × HasDistinctIds js

module _ (q : QueuedJob → Bool) where
  anyb-filterb :
      (i : ℕ) (js : List QueuedJob)
      → anyb (has_id i) js ≡ false
      → anyb (has_id i) (filterb q js) ≡ false
  anyb-filterb i [] h = refl
  anyb-filterb i (j ∷ js) h = ground (arith, anyb-filterb i js)

  filterb-HasDistinctIds : (js : List QueuedJob) → HasDistinctIds js → HasDistinctIds (filterb q js)
  filterb-HasDistinctIds [] h = tt
  filterb-HasDistinctIds (j ∷ js) (p, h) = elim (Bool-cases (q j)) [
    | inl kept ↦ rw kept (anyb-filterb j.id js p, filterb-HasDistinctIds js h)
    | inr left ↦ rw left (filterb-HasDistinctIds js h)
  ]

anyb-take :
    (i n : ℕ) (js : List QueuedJob)
    → anyb (has_id i) js ≡ false
    → anyb (has_id i) (take n js) ≡ false
anyb-take i zero js h = refl
anyb-take i (suc n) [] h = refl
anyb-take i (suc n) (j ∷ js) h = ground (arith, anyb-take i n js)

take-HasDistinctIds : (n : ℕ) (js : List QueuedJob) → HasDistinctIds js → HasDistinctIds (take n js)
take-HasDistinctIds zero js h = tt
take-HasDistinctIds (suc n) [] h = tt
take-HasDistinctIds (suc n) (j ∷ js) (p, h) = (anyb-take j.id n js p, take-HasDistinctIds n js h)

module _ (key : QueuedJob → ℕ) where
  place-HasDistinctIds :
      (j : QueuedJob) (js : List QueuedJob)
      → anyb (has_id j.id) js ≡ false
      → HasDistinctIds js
      → HasDistinctIds (place key j js)
  unfolding place
  place-HasDistinctIds j [] p h = (refl, tt)
  place-HasDistinctIds j (x ∷ xs) p (q, h) = elim (Bool-cases (leb (key j) (key x))) [
    | inl le ↦ rw le (p, (q, h))
    | inr gt ↦ rw gt (
      ground (arith, anyb-place key (has_id x.id) j xs, p, q),
      place-HasDistinctIds j xs (ground (arith, p)) h,
    )
  ]

  sort_by-HasDistinctIds :
      (js : List QueuedJob) → HasDistinctIds js → HasDistinctIds (sort_by key js)
  unfolding sort_by
  sort_by-HasDistinctIds [] h = tt
  sort_by-HasDistinctIds (j ∷ js) (p, h) =
      place-HasDistinctIds j (sort_by key js) (ground (arith, anyb-sort_by key (has_id j.id) js, p))
        (sort_by-HasDistinctIds js h)

pub candidates-HasDistinctIds :
    (p : ClaimParams) (now : ℕ) (jobs : List QueuedJob)
    → HasDistinctIds jobs
    → HasDistinctIds (candidates p now jobs)
unfolding candidates
candidates-HasDistinctIds p now jobs h =
    take-HasDistinctIds p.limit _
      (sort_by-HasDistinctIds queue_time _ (filterb-HasDistinctIds (is_eligible p now) jobs h))

-- The row that an identifier finds, where it waits.
abbrev pub IsFoundIn : List QueuedJob → QueuedJob → Type 0
IsFoundIn jobs c = is_waiting c.status ≡ true → find? (is_open c.id) jobs ≡ some c

found_behind :
    (x : QueuedJob) (front jobs : List QueuedJob)
    → anyb (has_id x.id) front ≡ false
    → All (IsFoundIn jobs) front
    → All (IsFoundIn (x ∷ jobs)) front
found_behind x [] jobs p h = tt
found_behind x (c ∷ cs) jobs p (q, h) =
    (λ waits. ground (arith, q waits, p), found_behind x cs jobs (ground (arith, p)) h)

pub all_found : (jobs : List QueuedJob) → HasDistinctIds jobs → All (IsFoundIn jobs) jobs
all_found [] h = tt
all_found (x ∷ xs) (p, h) =
    (λ waits. ground (arith, waits), found_behind x xs xs p (all_found xs h))

filterb-eligible :
    (p : ClaimParams) (now : ℕ) (js : List QueuedJob)
    → All (λ j. is_waiting j.status ≡ true) (filterb (is_eligible p now) js)
unfolding is_eligible
filterb-eligible p now [] = tt
filterb-eligible p now (j ∷ js) = elim (Bool-cases (is_eligible p now j)) [
  | inl kept ↦ rw kept (ground (arith, kept), filterb-eligible p now js)
  | inr left ↦ rw left (filterb-eligible p now js)
]

apply_found :
    (jobs cs : List QueuedJob)
    → All (IsFoundIn jobs) cs
    → All (λ j. is_waiting j.status ≡ true) cs
    → All (λ c. find? (is_open c.id) jobs ≡ some c) cs
apply_found jobs [] h k = tt
apply_found jobs (c ∷ cs) (p, h) (q, k) = (p q, apply_found jobs cs h k)

-- Each candidate is the row that its identifier finds.
pub candidates_found :
    (p : ClaimParams) (now : ℕ) (jobs : List QueuedJob)
    → HasDistinctIds jobs
    → All (λ c. find? (is_open c.id) jobs ≡ some c) (candidates p now jobs)
unfolding candidates
candidates_found p now jobs h =
    let eligible = filterb (is_eligible p now) jobs in
    All-take (λ c. find? (is_open c.id) jobs ≡ some c) p.limit (sort_by queue_time eligible)
      (All-sort_by queue_time (λ c. find? (is_open c.id) jobs ≡ some c) eligible
        (apply_found jobs eligible
          (All-filterb (IsFoundIn jobs) (is_eligible p now) jobs (all_found jobs h))
          (filterb-eligible p now jobs)))

no_open : (i : ℕ) (xs : List QueuedJob) → anyb (has_id i) xs ≡ false → find? (is_open i) xs ≡ none
no_open i [] h = refl
no_open i (x ∷ xs) h = ground (arith, no_open i xs)

-- A row waits if its identifier finds a row that does.
abbrev Waits : List QueuedJob → QueuedJob → Type 0
Waits jobs j = is_some (find? (is_open j.id) jobs) ≡ true → is_waiting j.status ≡ true

Waits-behind :
    (x : QueuedJob) (front jobs : List QueuedJob)
    → anyb (has_id x.id) front ≡ false
    → All (Waits jobs) front
    → All (Waits (x ∷ jobs)) front
Waits-behind x [] jobs p h = tt
Waits-behind x (c ∷ cs) jobs p (q, h) =
    (λ found. ground (arith, q, found, p), Waits-behind x cs jobs (ground (arith, p)) h)

all_wait : (jobs : List QueuedJob) → HasDistinctIds jobs → All (Waits jobs) jobs
all_wait [] h = tt
all_wait (x ∷ xs) (p, h) =
    (λ found. ground (arith, found, no_open x.id xs p), Waits-behind x xs xs p (all_wait xs h))

-- The rows whose identifiers are in a list wait.
abbrev pub Waiting : List QueuedJob → QueuedJob → Type 0
Waiting cs j = anyb (has_id j.id) cs ≡ true → is_waiting j.status ≡ true

row-Waits :
    (jobs cs : List QueuedJob) (j : QueuedJob)
    → Waits jobs j
    → All (λ c. find? (is_open c.id) jobs ≡ some c) cs
    → Waiting cs j
row-Waits jobs [] j w h found = absurd (cc)
row-Waits jobs (c ∷ cs) j w (p, h) found = elim (Bool-cases (c.id == j.id)) [
  | inl same ↦ w (
      subst (λ (i : ℕ). is_some (find? (is_open i) jobs) ≡ true) ((==_iff c.id j.id).0 same)
        (rw p refl))
  | inr other ↦ row-Waits jobs cs j w h (ground (arith, found, other))
]

rows_wait :
    (jobs rows cs : List QueuedJob)
    → All (Waits jobs) rows
    → All (λ c. find? (is_open c.id) jobs ≡ some c) cs
    → All (Waiting cs) rows
rows_wait jobs [] cs w h = tt
rows_wait jobs (j ∷ js) cs (p, w) h = (row-Waits jobs cs j p h, rows_wait jobs js cs w h)

pub candidates_wait :
    (p : ClaimParams) (now : ℕ) (jobs : List QueuedJob)
    → HasDistinctIds jobs
    → All (Waiting (candidates p now jobs)) jobs
candidates_wait p now jobs h =
    rows_wait jobs jobs (candidates p now jobs) (all_wait jobs h) (candidates_found p now jobs h)
