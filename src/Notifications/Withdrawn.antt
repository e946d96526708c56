-- ===== src/Notifications/Withdrawn.antt =====
-- What a guardian's consent is after it was withdrawn, of src/services/privacy/consent.ts.
use mathlib.Core.Path.{subst}
use offline_qr_school_attend.Common.{
  ℕ, ◌≡◌, refl, sym, ◌∙◌, ◌||◌, Bool, true, false, not, inl, inr, Option, none, some, is_some, List,
  [], ◌∷◌, map, filterb, anyb, ap, length, length-map, ltb, Bool-cases,
}
use offline_qr_school_attend.Notifications.Privacy.{
  ConsentKey, GuardianConsent, is_consent_of, later_row, latest_row, is_granted, has_consent,
  withdraw_row, withdraw_consent,
}

-- There is no row, or the row is withdrawn.
data Ended : Option GuardianConsent → Bool → Type 0 where
  no_row : Ended none false
  withdrawn : (row : GuardianConsent) → is_some row.withdrawn_at ≡ true → Ended (some row) true

later_row-Ended :
    (row : GuardianConsent) (o : Option GuardianConsent) (found : Bool)
    → is_some row.withdrawn_at ≡ true
    → Ended o found
    → Ended (later_row row o) true
later_row-Ended row _ _ h no_row = withdrawn row h
later_row-Ended row _ _ h (withdrawn other h') =
    elim (Bool-cases (ltb row.recorded_at other.recorded_at)) [
      | inl lt ↦ rw lt (withdrawn other h')
      | inr ge ↦ rw ge (withdrawn row h)
    ]

withdraw_row-withdrawn :
    (key : ConsentKey) (now : ℕ) (row : GuardianConsent)
    → is_consent_of key row ≡ true
    → is_some (withdraw_row key now row).withdrawn_at ≡ true
withdraw_row-withdrawn key now row h = elim (Bool-cases (is_some row.withdrawn_at)) [
  | inl before ↦ rw (h, before) before
  | inr still ↦ rw (h, still) refl
]

withdraw_row-key :
    (key : ConsentKey) (now : ℕ) (row : GuardianConsent)
    → is_consent_of key (withdraw_row key now row) ≡ is_consent_of key row
withdraw_row-key key now row = elim (Bool-cases (is_consent_of key row)) [
  | inl of_key ↦ elim (Bool-cases (is_some row.withdrawn_at)) [
    | inl before ↦ rw (of_key, before) of_key
    | inr still ↦ rw (of_key, still) of_key
  ]
  | inr other ↦ rw other other
]

kept-Ended :
    (key : ConsentKey) (row : GuardianConsent) (rows : List GuardianConsent) (found : Bool)
    → is_consent_of key row ≡ true
    → is_some row.withdrawn_at ≡ true
    → Ended (latest_row (filterb (is_consent_of key) rows)) found
    → Ended (latest_row (filterb (is_consent_of key) (row ∷ rows))) true
kept-Ended key row rows found of_key h rest = rw of_key (later_row-Ended row _ _ h rest)

skipped-Ended :
    (key : ConsentKey) (row : GuardianConsent) (rows : List GuardianConsent) (found : Bool)
    → is_consent_of key row ≡ false
    → Ended (latest_row (filterb (is_consent_of key) rows)) found
    → Ended (latest_row (filterb (is_consent_of key) (row ∷ rows))) found
skipped-Ended key row rows found other rest = rw other rest

latest_row-Ended :
    (key : ConsentKey) (now : ℕ) (rows : List GuardianConsent)
    → Ended
        (latest_row (filterb (is_consent_of key) (map (withdraw_row key now) rows)))
        (anyb (is_consent_of key) rows)
latest_row-Ended key now [] = no_row
latest_row-Ended key now (row ∷ rows) =
    let after = withdraw_row key now row in
    let rest = map (withdraw_row key now) rows in
    let same = withdraw_row-key key now row in
    let before = latest_row-Ended key now rows in
    elim (Bool-cases (is_consent_of key row)) [
      | inl of_key ↦
          subst
            (λ b.
              Ended (latest_row (filterb (is_consent_of key) (after ∷ rest)))
                (b || anyb (is_consent_of key) rows))
            (sym of_key)
            (kept-Ended key after rest _ (same ∙ of_key) (withdraw_row-withdrawn key now row of_key)
              before)
      | inr other ↦
          subst
            (λ b.
              Ended (latest_row (filterb (is_consent_of key) (after ∷ rest)))
                (b || anyb (is_consent_of key) rows))
            (sym other) (skipped-Ended key after rest _ (same ∙ other) before)
    ]

is_granted-of_Ended :
    (o : Option GuardianConsent) (found : Bool) → Ended o found → is_granted o ≡ not found
is_granted-of_Ended _ _ no_row = refl
is_granted-of_Ended _ _ (withdrawn row h) = rw h refl

-- The rows of every other school, student or purpose.
abbrev pub is_other : ConsentKey → GuardianConsent → Bool
is_other key row = not (is_consent_of key row)

withdraw_row-others :
    (key : ConsentKey) (now : ℕ) (rows : List GuardianConsent)
    → filterb (is_other key) (map (withdraw_row key now) rows) ≡ filterb (is_other key) rows
withdraw_row-others key now [] = refl
withdraw_row-others key now (row ∷ rows) =
    let same = withdraw_row-key key now row in
    elim (Bool-cases (is_consent_of key row)) [
      | inl of_key ↦ rw (same ∙ of_key, of_key) (withdraw_row-others key now rows)
      | inr other ↦ rw (other, other) (ap (λ rs. row ∷ rs) (withdraw_row-others key now rows))
    ]

-- After withdrawConsent the student has no consent for the purpose, unless none was ever recorded:
-- then the consent still counts as given. It adds no row, and leaves the rows of every other school,
-- student and purpose as they were.
pub has_consent-withdraw_consent :
    (key : ConsentKey) (now : ℕ) (rows : List GuardianConsent)
    → (has_consent key (withdraw_consent key now rows) ≡ not (anyb (is_consent_of key) rows))
      × (length (withdraw_consent key now rows) ≡ length rows)
      × (filterb (is_other key) (withdraw_consent key now rows) ≡ filterb (is_other key) rows)
unfolding has_consent withdraw_consent
has_consent-withdraw_consent key now rows = (
  is_granted-of_Ended _ _ (latest_row-Ended key now rows),
  length-map (withdraw_row key now) rows,
  withdraw_row-others key now rows,
)
