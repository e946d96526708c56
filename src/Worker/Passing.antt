-- ===== src/Worker/Passing.antt =====
-- The updates that take a job from its holder, on the whole table.
use mathlib.Core.Path.{subst}
use offline_qr_school_attend.Common.{
  ℕ, ◌≡◌, ◌⊎◌, refl, sym, ap, Bool, true, false, ◌&&◌, none, some, List, [], ◌∷◌, map, anyb, arith,
  All, inl, inr, Bool-cases, ◌==◌,
}
use offline_qr_school_attend.Notifications.Jobs.{same_value}
use offline_qr_school_attend.Worker.Queue.{fail_own}
use offline_qr_school_attend.Worker.Types.{QueuedJob, update_if}

-- The worker holds the row.
abbrev pub is_held_by : ℕ → QueuedJob → Bool
is_held_by worker row = same_value row.claimed_by (some worker)

abbrev pub IsFree : ℕ → QueuedJob → Type 0
IsFree worker row = is_held_by worker row ≡ false

abbrev pub same_key : QueuedJob → QueuedJob → Bool
same_key row j = j.id == row.id && j.school_id == row.school_id

-- A row that the worker holds is among the jobs that it has still to deal with.
abbrev pub IsAwaited : ℕ → List QueuedJob → QueuedJob → Type 0
IsAwaited worker js row = is_held_by worker row ≡ true → anyb (same_key row) js ≡ true

-- A row after the job was dealt with: let go, or another row that did not change.
abbrev Passes : QueuedJob → QueuedJob → QueuedJob → Type 0
Passes j row row' = (row'.claimed_by ≡ none) ⊎ ((row' ≡ row) × (same_key row j ≡ false))

held_by_none : (worker : ℕ) (r : QueuedJob) → r.claimed_by ≡ none → is_held_by worker r ≡ true → ⊥
held_by_none worker r h k = cc (ap (λ o. same_value o (some worker)) h, k)

module _ (worker : ℕ) (j : QueuedJob) (js : List QueuedJob) where
  pass :
      (row row' : QueuedJob)
      → Passes j row row'
      → IsAwaited worker (j ∷ js) row
      → IsAwaited worker js row'
  pass row row' (inl free) w = λ held. absurd (held_by_none worker row' free held)
  pass row row' (inr (same, other)) w =
      subst (IsAwaited worker js) (sym same) (λ held. ground (arith, w held, other))

  pub pass_all :
      (f : QueuedJob → QueuedJob) (rows : List QueuedJob)
      → ((row : QueuedJob) → Passes j row (f row))
      → All (IsAwaited worker (j ∷ js)) rows
      → All (IsAwaited worker js) (map f rows)
  pass_all f [] h w = tt
  pass_all f (row ∷ rows) h (p, w) = (pass row (f row) (h row) p, pass_all f rows h w)

pub update_if-Passes :
    (j : QueuedJob) (f : QueuedJob → QueuedJob)
    → ((row : QueuedJob) → (f row).claimed_by ≡ none)
    → (row : QueuedJob) → Passes j row (update_if j.id f row)
update_if-Passes j f h row = elim (Bool-cases (row.id == j.id)) [
  | inl same ↦ rw same (inl (h row))
  | inr other ↦ rw other (inr (refl, ground (arith, other)))
]

pub fail_own-Passes :
    (j : QueuedJob) (f : QueuedJob → QueuedJob)
    → ((row : QueuedJob) → (f row).claimed_by ≡ none)
    → (row : QueuedJob) → Passes j row (fail_own j f row)
fail_own-Passes j f h row = elim (Bool-cases (row.id == j.id && row.school_id == j.school_id)) [
  | inl same ↦ rw same (inl (h row))
  | inr other ↦ rw other (inr (refl, ground (arith, other)))
]
