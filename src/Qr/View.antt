-- ===== src/Qr/View.antt =====
-- What the credentials promise: a student of a school has at most one token at a time.
use offline_qr_school_attend.Common.{
  ℕ, suc, ◌&&◌, Option, none, some, is_some, List, [], ◌∷◌, ◌==◌, ◌≡◌, if◌then◌else◌,
}
use offline_qr_school_attend.Qr.Defs.{
  QrRow, bulk_issue_qrs, create_qr_credential, reissue_qr_credential, revoke_qr_credential,
}

-- The digest of the token that a student has.
abbrev pub Current : Type 0
Current = ℕ → ℕ → Option ℕ

abbrev pub put : ℕ → ℕ → Option ℕ → Current → Current
put school student o current = λ a b. if a == school && b == student then o else current a b

abbrev pub put_missing : ℕ → ℕ → ℕ → Current → Current
put_missing school student digest current =
    if is_some (current school student) then current else put school student (some digest) current

pub data Command : Type 0 where
  revoke : (now school student : ℕ) → Command
  issue : (now school student : ℕ) → List ℕ → Command
  reissue : (now school student : ℕ) → List ℕ → Command
  bulk_issue : (now school : ℕ) → (ℕ → List ℕ) → List ℕ → Command

module _ (sha256 : List ℕ → ℕ) where
  unfoldable pub put_all_missing : ℕ → (ℕ → List ℕ) → ℕ → List ℕ → Current → Current
  put_all_missing school random k [] current = current
  put_all_missing school random k (student ∷ students) current =
      put_all_missing school random (suc k) students
        (put_missing school student (sha256 (random k)) current)

  -- A command on the tokens, and on the table.
  unfoldable pub promise : Command → Current → Current
  unfolding put_all_missing
  promise (revoke now school student) current = put school student none current
  promise (issue now school student raw_token) current =
      put school student (some (sha256 raw_token)) current
  promise (reissue now school student raw_token) current =
      put school student (some (sha256 raw_token)) current
  promise (bulk_issue now school random students) current =
      put_all_missing school random 0 students current

  -- `none` where the database refuses a row: the transaction of the request leaves nothing.
  unfoldable pub execute : Command → List QrRow → Option (List QrRow)
  unfolding revoke_qr_credential create_qr_credential reissue_qr_credential bulk_issue_qrs
  execute (revoke now school student) rows = some (revoke_qr_credential now school student rows)
  execute (issue now school student raw_token) rows =
      create_qr_credential sha256 now school student raw_token rows
  execute (reissue now school student raw_token) rows =
      reissue_qr_credential sha256 now school student raw_token rows
  execute (bulk_issue now school random students) rows =
      bulk_issue_qrs sha256 now school random 0 students rows

  -- The tables that commands which succeed can reach, with the tokens that they promise.
  pub data Ran : List QrRow → Current → Type 0 where
    nothing : Ran [] (λ a b. none)
    after :
        (c : Command) (rows rows' : List QrRow) (current : Current)
        → Ran rows current
        → execute c rows ≡ some rows'
        → Ran rows' (promise c current)
