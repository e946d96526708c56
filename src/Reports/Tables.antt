-- ===== src/Reports/Tables.antt =====
-- What holds of the table of reports at any time, and what an operation keeps of it.
use offline_qr_school_attend.Common.{
  ℕ, ◌≤◌, ◌<◌, ◌≡◌, ◌⊎◌, refl, sym, ap, ◌∙◌, Bool, true, false, ◌&&◌, ◌||◌, none, is_some, List, [],
  ◌∷◌, ◌++◌, map, anyb, arith, All, inl, inr, ◌==◌,
}
use offline_qr_school_attend.Reports.Drafts.{
  Report, ReportStatus, ReportDb, is_approved, is_of_period,
}

abbrev pub same_period : Report → Report → Bool
same_period r s = is_of_period r.school_id r.report_type r.period_start_date r.period_end_date s

abbrev pub is_approved_like : Report → Report → Bool
is_approved_like r s = same_period r s && is_approved s.status

-- No type and period of a school has two reports that are approved.
abbrev pub HasOneApproved : List Report → Type 0
HasOneApproved [] = Unit
HasOneApproved (r ∷ rs) =
    (is_approved r.status ≡ true → anyb (is_approved_like r) rs ≡ false) × HasOneApproved rs

abbrev pub has_id : ℕ → Report → Bool
has_id id r = r.id == id

abbrev pub HasDistinctReports : List Report → Type 0
HasDistinctReports [] = Unit
HasDistinctReports (r ∷ rs) = (anyb (has_id r.id) rs ≡ false) × HasDistinctReports rs

-- The statuses of a report that has an artifact.
abbrev pub has_artifact : ReportStatus → Bool
has_artifact ReportStatus.draft = false
has_artifact ReportStatus.validated = false
has_artifact _ = true

abbrev pub IsHashed : Report → Type 0
IsHashed r = has_artifact r.status ≡ is_some r.file_hash_sha256

pub record WellFormed (db : ReportDb) : Type 0 where
  pub below : All (λ (r : Report). r.id < db.next_id) db.reports
  pub distinct : HasDistinctReports db.reports
  pub one_approved : HasOneApproved db.reports
  pub hashed : All IsHashed db.reports

-- The order in which a report passes through its statuses.
abbrev pub rank : ReportStatus → ℕ
rank ReportStatus.draft = 0
rank ReportStatus.validated = 1
rank ReportStatus.ready_for_review = 2
rank ReportStatus.approved_internally = 3
rank ReportStatus.exported = 4
rank ReportStatus.superseded = 5

-- A report later on: the same report, with the artifact that it had, no earlier in its course.
pub record Keeps (r s : Report) : Type 0 where
  pub same_id : s.id ≡ r.id
  pub same_school : s.school_id ≡ r.school_id
  pub same_type : s.report_type ≡ r.report_type
  pub same_start : s.period_start_date ≡ r.period_start_date
  pub same_end : s.period_end_date ≡ r.period_end_date
  pub same_version : s.report_version ≡ r.report_version
  pub artifact : (r.file_hash_sha256 ≡ none) ⊎ (s.file_hash_sha256 ≡ r.file_hash_sha256)
  pub onward : rank r.status ≤ rank s.status

-- The reports later on: each is kept, and new ones come behind.
abbrev pub Extends : List Report → List Report → Type 0
Extends [] ss = Unit
Extends (r ∷ rs) [] = ⊥
Extends (r ∷ rs) (s ∷ ss) = Keeps r s × Extends rs ss

pub Keeps-refl : (r : Report) → Keeps r r
Keeps-refl r = record {
  same_id = refl;
  same_school = refl;
  same_type = refl;
  same_start = refl;
  same_end = refl;
  same_version = refl;
  artifact = inr refl;
  onward = omega arith;
}

Keeps-trans : (r s t : Report) → Keeps r s → Keeps s t → Keeps r t
Keeps-trans r s t p q = record {
  same_id = q.same_id ∙ p.same_id;
  same_school = q.same_school ∙ p.same_school;
  same_type = q.same_type ∙ p.same_type;
  same_start = q.same_start ∙ p.same_start;
  same_end = q.same_end ∙ p.same_end;
  same_version = q.same_version ∙ p.same_version;
  artifact = elim p.artifact [
    | inl bare ↦ inl bare
    | inr kept ↦ elim q.artifact [
      | inl bare ↦ inl (sym kept ∙ bare)
      | inr kept' ↦ inr (kept' ∙ kept)
    ]
  ];
  onward = omega (arith, p.onward, q.onward);
}

pub Extends-refl : (rs : List Report) → Extends rs rs
Extends-refl [] = tt
Extends-refl (r ∷ rs) = (Keeps-refl r, Extends-refl rs)

pub Extends-trans : (rs ss ts : List Report) → Extends rs ss → Extends ss ts → Extends rs ts
Extends-trans [] ss ts p q = tt
Extends-trans (r ∷ rs) [] ts p q = elim p [ ]
Extends-trans (r ∷ rs) (s ∷ ss) [] p q = elim q [ ]
Extends-trans (r ∷ rs) (s ∷ ss) (t ∷ ts) (p, ps) (q, qs) =
    (Keeps-trans r s t p q, Extends-trans rs ss ts ps qs)

pub Extends-append : (rs ss : List Report) → Extends rs (rs ++ ss)
Extends-append [] ss = tt
Extends-append (r ∷ rs) ss = (Keeps-refl r, Extends-append rs ss)

-- An operation on each row, where it keeps the row and finds its artifact or brings it.
pub record Carries (r s : Report) : Type 0 where
  pub keeps : Keeps r s
  pub hashed : IsHashed r → IsHashed s

abbrev pub Preserves : (Report → Report) → Report → Type 0
Preserves f r = Carries r (f r)

pub Preserves-Extends :
    (f : Report → Report) (rs : List Report) → All (Preserves f) rs → Extends rs (map f rs)
Preserves-Extends f [] h = tt
Preserves-Extends f (r ∷ rs) (p, h) = (p.keeps, Preserves-Extends f rs h)

pub Preserves-IsHashed :
    (f : Report → Report) (rs : List Report)
    → All (Preserves f) rs
    → All IsHashed rs
    → All IsHashed (map f rs)
Preserves-IsHashed f [] h k = tt
Preserves-IsHashed f (r ∷ rs) (p, h) (q, k) = (p.hashed q, Preserves-IsHashed f rs h k)

pub Preserves-below :
    (f : Report → Report) (n : ℕ) (rs : List Report)
    → All (Preserves f) rs
    → All (λ (r : Report). r.id < n) rs
    → All (λ (r : Report). r.id < n) (map f rs)
Preserves-below f n [] h k = tt
Preserves-below f n (r ∷ rs) (p, h) (q, k) =
    (omega (arith, p.keeps.same_id, q), Preserves-below f n rs h k)

anyb-Preserves :
    (f : Report → Report) (i : ℕ) (rs : List Report)
    → All (Preserves f) rs
    → anyb (has_id i) (map f rs) ≡ anyb (has_id i) rs
anyb-Preserves f i [] h = refl
anyb-Preserves f i (r ∷ rs) (p, h) =
    let e : (f r).id ≡ r.id = p.keeps.same_id in
    ap (λ n. (n == i) || anyb (has_id i) (map f rs)) e
    ∙ ap (λ b. (r.id == i) || b) (anyb-Preserves f i rs h)

pub Preserves-distinct :
    (f : Report → Report) (rs : List Report)
    → All (Preserves f) rs
    → HasDistinctReports rs
    → HasDistinctReports (map f rs)
Preserves-distinct f [] h k = tt
Preserves-distinct f (r ∷ rs) (p, h) (q, k) = (
  ap (λ n. anyb (has_id n) (map f rs)) p.keeps.same_id ∙ anyb-Preserves f r.id rs h ∙ q,
  Preserves-distinct f rs h k,
)
