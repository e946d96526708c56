-- ===== src/Qr/Refines.antt =====
-- The table of credentials keeps what the tokens promise.
use mathlib.Core.Path.{fun_ext, subst}
use offline_qr_school_attend.Common.{
  ℕ, suc, ◌≡◌, refl, sym, ap, ◌∙◌, true, ◌&&◌, Option, none, some, is_some, List, [], ◌∷◌, ◌==◌,
  ◌↔◌, find?, inl, inr, Bool-cases, Option-cases, if◌then◌else◌,
}
use offline_qr_school_attend.Qr.Defs.{
  QrRow, and_then, bulk_issue_qrs, create_qr_credential, is_active_of, issue_missing,
  reissue_qr_credential, revoke_qr_credential, verify_qr_token,
}
use offline_qr_school_attend.Qr.Appended.{
  Created, HasOneActive, digest_of, find?-revoke, revoke-HasOneActive, view,
}
use offline_qr_school_attend.Qr.Rows.{create_qr_credential-Created, verify_qr_token-view}
use offline_qr_school_attend.Qr.View.{
  Command, Current, Ran, execute, promise, put, put_all_missing, put_missing,
}

-- The table shows the tokens, and no student has two.
pub record Shows (rows : List QrRow) (current : Current) : Type 0 where
  pub one_active : HasOneActive rows
  pub viewed : view rows ≡ current

none-some : (rows : List QrRow) → (let o : Option (List QrRow) = none in o ≡ some rows) → ⊥
none-some rows h = cc

put_twice :
    (school student : ℕ) (o o' : Option ℕ) (current : Current)
    → put school student o' (put school student o current) ≡ put school student o' current
put_twice school student o o' current = fun_ext (λ a. fun_ext (λ b.
    elim (Bool-cases (a == school && b == student)) [
      | inl same ↦ rw same refl
      | inr other ↦ rw other refl
    ]))

module _ (sha256 : List ℕ → ℕ) where
  Created-Shows :
      (school student : ℕ) (raw_token : List ℕ) (rows rows' : List QrRow) (current : Current)
      → Created sha256 school student raw_token rows rows'
      → Shows rows current
      → Shows rows' (put school student (some (sha256 raw_token)) current)
  Created-Shows school student raw_token rows rows' current c s = record {
    one_active = c.one_active s.one_active;
    viewed =
        fun_ext (λ a. fun_ext (λ b. c.viewed a b))
        ∙ ap (put school student (some (sha256 raw_token))) s.viewed;
  }

  revoke-Shows :
      (now school student : ℕ) (rows : List QrRow) (current : Current)
      → Shows rows current
      → Shows (revoke_qr_credential now school student rows) (put school student none current)
  revoke-Shows now school student rows current s = record {
    one_active = revoke-HasOneActive now school student rows s.one_active;
    viewed =
        fun_ext (λ a. fun_ext (λ b. find?-revoke now school student a b rows))
        ∙ ap (put school student none) s.viewed;
  }

  digest-is_some : (o : Option QrRow) → is_some (digest_of o) ≡ is_some o
  digest-is_some none = refl
  digest-is_some (some r) = refl

  -- The token of a student who had none, or no change.
  issue_missing-Shows :
      (now school student : ℕ) (raw_token : List ℕ) (rows rows' : List QrRow) (current : Current)
      → issue_missing sha256 now school student raw_token rows ≡ some rows'
      → Shows rows current
      → Shows rows' (put_missing school student (sha256 raw_token) current)
  issue_missing-Shows now school student raw_token rows rows' current h s =
      let same : is_some (current school student)
          ≡ is_some (find? (is_active_of school student) rows) =
        ap (λ (v : Current). is_some (v school student)) (sym s.viewed)
        ∙ digest-is_some (find? (is_active_of school student) rows) in
      elim (Bool-cases (is_some (find? (is_active_of school student) rows))) [
        | inl has_one ↦ rw (same ∙ has_one) (
            subst (λ rs. Shows rs current)
              (kept rows rows' (
                subst
                  (λ b.
                    (if b
                      then some rows
                      else create_qr_credential sha256 now school student raw_token rows)
                    ≡ some rows')
                  has_one h))
              s)
        | inr lacks ↦ rw (same ∙ lacks) (
            Created-Shows school student raw_token rows rows' current
              (create_qr_credential-Created sha256 now school student raw_token rows rows' (
                subst
                  (λ b.
                    (if b
                      then some rows
                      else create_qr_credential sha256 now school student raw_token rows)
                    ≡ some rows')
                  lacks h))
              s)
      ]
    where
      kept : (xs ys : List QrRow) → some xs ≡ some ys → xs ≡ ys
      kept xs ys e = cc

  bulk_issue_qrs-Shows :
      (now school : ℕ) (random : ℕ → List ℕ) (k : ℕ) (students : List ℕ) (rows rows' : List QrRow)
      (current : Current)
      → bulk_issue_qrs sha256 now school random k students rows ≡ some rows'
      → Shows rows current
      → Shows rows' (put_all_missing sha256 school random k students current)
  unfolding bulk_issue_qrs put_all_missing
  bulk_issue_qrs-Shows now school random k [] rows rows' current h s =
      subst (λ rs. Shows rs current) (cc h) s
  bulk_issue_qrs-Shows now school random k (student ∷ students) rows rows' current h s =
      elim (Option-cases (issue_missing sha256 now school student (random k) rows)) [
        | inl fails ↦ absurd (
            none-some rows' (
              subst
                (λ o.
                  and_then o
                    (λ issued. bulk_issue_qrs sha256 now school random (suc k) students issued)
                  ≡ some rows')
                fails h))
        | inr (issued, e) ↦
            bulk_issue_qrs-Shows now school random (suc k) students issued rows'
              (put_missing school student (sha256 (random k)) current)
              (subst
                (λ o.
                  and_then o (λ rs. bulk_issue_qrs sha256 now school random (suc k) students rs)
                  ≡ some rows')
                e h)
              (issue_missing-Shows now school student (random k) rows issued current e s)
      ]

  execute-Shows :
      (c : Command) (rows rows' : List QrRow) (current : Current)
      → execute sha256 c rows ≡ some rows'
      → Shows rows current
      → Shows rows' (promise sha256 c current)
  unfolding execute promise reissue_qr_credential
  execute-Shows (Command.revoke now school student) rows rows' current h s =
      subst (λ rs. Shows rs (put school student none current)) (cc h)
        (revoke-Shows now school student rows current s)
  execute-Shows (Command.issue now school student raw_token) rows rows' current h s =
      Created-Shows school student raw_token rows rows' current
        (create_qr_credential-Created sha256 now school student raw_token rows rows' h) s
  execute-Shows (Command.reissue now school student raw_token) rows rows' current h s =
      let none_now = put school student none current in
      subst (Shows rows') (put_twice school student none (some (sha256 raw_token)) current) (
        Created-Shows school student raw_token (revoke_qr_credential now school student rows) rows'
          none_now
          (create_qr_credential-Created sha256 now school student raw_token
            (revoke_qr_credential now school student rows) rows' h)
          (revoke-Shows now school student rows current s))
  execute-Shows (Command.bulk_issue now school random students) rows rows' current h s =
      bulk_issue_qrs-Shows now school random 0 students rows rows' current h s

Ran-Shows :
    (sha256 : List ℕ → ℕ) (rows : List QrRow) (current : Current)
    → Ran sha256 rows current
    → Shows rows current
Ran-Shows sha256 _ _ Ran.nothing = record { one_active = tt; viewed = refl }
Ran-Shows sha256 _ _ (Ran.after c rows rows' current before h) =
    execute-Shows sha256 c rows rows' current h (Ran-Shows sha256 rows current before)

-- After any run of commands that succeed, no student has two active credentials, every student has
-- the token that the commands promise and nobody has another, and verifyQrToken accepts a token
-- exactly where some student of the school has its digest.
pub Ran-refines :
    (sha256 : List ℕ → ℕ) (rows : List QrRow) (current : Current)
    → Ran sha256 rows current
    → HasOneActive rows
      × (view rows ≡ current)
      × ((school : ℕ) (raw_token : List ℕ)
          → (is_some (verify_qr_token sha256 school raw_token rows) ≡ true)
            ↔ ((student : ℕ) × (current school student ≡ some (sha256 raw_token))))
Ran-refines sha256 rows current ran =
    let s = Ran-Shows sha256 rows current ran in
    (
      s.one_active,
      s.viewed,
      λ school raw_token.
          subst
            (λ (v : Current).
              (is_some (verify_qr_token sha256 school raw_token rows) ≡ true)
              ↔ ((student : ℕ) × (v school student ≡ some (sha256 raw_token))))
            s.viewed (verify_qr_token-view sha256 school raw_token rows s.one_active),
    )
