-- ===== src/Qr/Tests.antt =====
-- Runs of the QR credentials, and the theorems at concrete inputs.
use offline_qr_school_attend.Common.{
  ℕ, ◌+◌, ◌*◌, ◌≡◌, ◌↔◌, refl, true, none, some, is_some, List, [], ◌∷◌, anyb,
}
use offline_qr_school_attend.Qr.Defs.{
  QrRow, QrStatus, bulk_issue_qrs, has_digest, reissue_qr_credential, verify_qr_token,
}
use offline_qr_school_attend.Qr.Refines.{Ran-refines}
use offline_qr_school_attend.Qr.Appended.{HasOneActive, view}
use offline_qr_school_attend.Qr.Rows.{reissue_qr_credential-fails_iff}
use offline_qr_school_attend.Qr.View.{Command, Ran, execute, promise}

abbrev digest : List ℕ → ℕ
digest [] = 7
digest (c ∷ s) = c + 31 * digest s

abbrev first_row : QrRow
first_row = record {
  school_id = 1;
  student_id = 21;
  token_digest = digest (5 ∷ []);
  version = 1;
  status = QrStatus.active;
  issued_at = 10;
  revoked_at = none;
}

abbrev revoked_row : QrRow
revoked_row = record first_row { status = QrStatus.revoked; revoked_at = some 20 }

abbrev second_row : QrRow
second_row = record first_row { token_digest = digest (6 ∷ []); version = 2; issued_at = 20 }

abbrev first_issue : Command
first_issue = Command.issue 10 1 21 (5 ∷ [])

abbrev lost_card : Command
lost_card = Command.reissue 20 1 21 (6 ∷ [])

reissued : execute digest lost_card (first_row ∷ []) ≡ some (revoked_row ∷ second_row ∷ [])
unfolding execute
reissued = refl

second_issue_fails : execute digest (Command.issue 30 1 21 (8 ∷ [])) (first_row ∷ []) ≡ none
unfolding execute
second_issue_fails = refl

bulk_skips :
    bulk_issue_qrs digest 30 1 (λ k. k ∷ []) 0 (21 ∷ 22 ∷ []) (first_row ∷ [])
    ≡ some (
        first_row
        ∷ record first_row { student_id = 22; token_digest = digest (1 ∷ []); issued_at = 30 }
        ∷ [])
unfolding bulk_issue_qrs
bulk_skips = refl

Ran-refines_example :
    let rows = revoked_row ∷ second_row ∷ [] in
    let current = promise digest lost_card (promise digest first_issue (λ a b. none)) in
    HasOneActive rows
    × (view rows ≡ current)
    × ((school : ℕ) (raw_token : List ℕ)
        → (is_some (verify_qr_token digest school raw_token rows) ≡ true)
          ↔ ((student : ℕ) × (current school student ≡ some (digest raw_token))))
unfolding execute
Ran-refines_example =
    Ran-refines digest (revoked_row ∷ second_row ∷ [])
      (promise digest lost_card (promise digest first_issue (λ a b. none)))
      (Ran.after lost_card (first_row ∷ []) (revoked_row ∷ second_row ∷ [])
        (promise digest first_issue (λ a b. none))
        (Ran.after first_issue [] (first_row ∷ []) (λ a b. none) Ran.nothing refl) refl)

reissue_qr_credential-fails_iff_example :
    (reissue_qr_credential digest 20 1 21 (5 ∷ []) (first_row ∷ []) ≡ none)
    ↔ (anyb (has_digest digest 1 (digest (5 ∷ []))) (first_row ∷ []) ≡ true)
reissue_qr_credential-fails_iff_example =
    reissue_qr_credential-fails_iff digest 20 1 21 (5 ∷ []) (first_row ∷ [])
