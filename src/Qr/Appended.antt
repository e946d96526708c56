-- ===== src/Qr/Appended.antt =====
-- Rows of QR credentials after one is appended: a student has one active row at most.
use offline_qr_school_attend.Common.{
  ℕ, ◌≡◌, refl, Bool, true, ◌&&◌, Option, none, some, List, [], ◌∷◌, ◌++◌, ◌==◌, find?, arith, inl,
  inr, Bool-cases, if◌then◌else◌, or_else,
}
use offline_qr_school_attend.Qr.Defs.{QrRow, is_active_of, is_in_force, revoke_qr_credential}

abbrev pub digest_of : Option QrRow → Option ℕ
digest_of none = none
digest_of (some r) = some r.token_digest

-- The digest of a student's active row.
abbrev pub view : List QrRow → ℕ → ℕ → Option ℕ
view rows school student = digest_of (find? (is_active_of school student) rows)

-- A student has no second active row.
abbrev pub HasOneActive : List QrRow → Type 0
HasOneActive [] = Unit
HasOneActive (r ∷ rs) =
    (is_in_force r.status ≡ true → find? (is_active_of r.school_id r.student_id) rs ≡ none)
    × HasOneActive rs

-- Revoking takes the active row of the student, and of nobody else.
pub find?-revoke :
    (now school student a b : ℕ) (rows : List QrRow)
    → digest_of (find? (is_active_of a b) (revoke_qr_credential now school student rows))
      ≡ (if a == school && b == student then none else view rows a b)
unfolding revoke_qr_credential
find?-revoke now school student a b [] = ground arith
find?-revoke now school student a b (r ∷ rs) =
    ground (arith, find?-revoke now school student a b rs)

revoked_none :
    (now school student a b : ℕ) (rows : List QrRow)
    → find? (is_active_of a b) rows ≡ none
    → find? (is_active_of a b) (revoke_qr_credential now school student rows) ≡ none
unfolding revoke_qr_credential
revoked_none now school student a b [] h = refl
revoked_none now school student a b (r ∷ rs) h =
    ground (arith, revoked_none now school student a b rs)

pub revoke-HasOneActive :
    (now school student : ℕ) (rows : List QrRow)
    → HasOneActive rows
    → HasOneActive (revoke_qr_credential now school student rows)
unfolding revoke_qr_credential
revoke-HasOneActive now school student [] h = tt
revoke-HasOneActive now school student (r ∷ rs) (p, h) =
    elim (Bool-cases (is_active_of school student r)) [
      | inl taken ↦ rw taken ((λ e. absurd (cc)), revoke-HasOneActive now school student rs h)
      | inr kept ↦ rw kept (
        (λ e. revoked_none now school student r.school_id r.student_id rs (p e)),
        revoke-HasOneActive now school student rs h,
      )
    ]

-- A row at the end is found where none was before.
pub find?-snoc :
    (q : QrRow → Bool) (rows : List QrRow) (r : QrRow)
    → find? q (rows ++ r ∷ []) ≡ or_else (find? q rows) (if q r then some r else none)
find?-snoc q [] r = refl
find?-snoc q (x ∷ xs) r = ground (arith, find?-snoc q xs r)

pub snoc-HasOneActive :
    (rows : List QrRow) (r : QrRow)
    → find? (is_active_of r.school_id r.student_id) rows ≡ none
    → HasOneActive rows
    → HasOneActive (rows ++ r ∷ [])
snoc-HasOneActive [] r free h = ((λ e. refl), tt)
snoc-HasOneActive (x ∷ xs) r free (p, h) = (
  λ e. ground (arith, find?-snoc (is_active_of x.school_id x.student_id) xs r, p e, e, free),
  snoc-HasOneActive xs r (ground (arith, free)) h,
)

-- What a row that the database accepts does to the table.
pub record Created (sha256 : List ℕ → ℕ) (school student : ℕ) (raw_token : List ℕ)
    (rows rows' : List QrRow) : Type 0 where
  pub was_free : find? (is_active_of school student) rows ≡ none
  pub one_active : HasOneActive rows → HasOneActive rows'
  pub viewed :
      (a b : ℕ)
      → view rows' a b
        ≡ (if a == school && b == student then some (sha256 raw_token) else view rows a b)
