-- ===== src/Reports/Moves.antt =====
-- How each update moves a report.
use mathlib.Core.Path.{subst}
use offline_qr_school_attend.Common.{
  ℕ, ◌≤◌, ◌≡◌, refl, sym, ap, ◌∙◌, Bool, true, false, Option, none, some, is_some, arith, inl, inr,
  Bool-cases,
}
use offline_qr_school_attend.Reports.Approved.{ApprovesNone}
use offline_qr_school_attend.Reports.Drafts.{
  Report, ReportStatus, attach, is_approved, is_ready, is_validated, update_report_if,
}
use offline_qr_school_attend.Reports.Defs.{approve, count_download, supersede}
use offline_qr_school_attend.Reports.Tables.{Carries, Keeps-refl, has_artifact, rank}

abbrev pub Moves : Report → Report → Type 0
Moves r s = Carries r s × (is_approved s.status ≡ true → is_approved r.status ≡ true)

-- An update of the rows that a test selects.
pub update-ApprovesNone :
    (q : Report → Bool) (f : Report → Report) (r : Report)
    → (q r ≡ true → Moves r (f r))
    → ApprovesNone (update_report_if q f) r
update-ApprovesNone q f r h = elim (Bool-cases (q r)) [
  | inl selected ↦ rw selected (h selected)
  | inr other ↦ rw other (record { keeps = Keeps-refl r; hashed = λ k. k }, λ k. k)
]

rank_le : (s : ReportStatus) → rank s ≤ 5
rank_le ReportStatus.draft = omega arith
rank_le ReportStatus.validated = omega arith
rank_le ReportStatus.ready_for_review = omega arith
rank_le ReportStatus.approved_internally = omega arith
rank_le ReportStatus.exported = omega arith
rank_le ReportStatus.superseded = omega arith

approved-has_artifact : (s : ReportStatus) → is_approved s ≡ true → has_artifact s ≡ true
approved-has_artifact ReportStatus.approved_internally h = refl
approved-has_artifact ReportStatus.draft h = absurd (cc)
approved-has_artifact ReportStatus.validated h = absurd (cc)
approved-has_artifact ReportStatus.ready_for_review h = refl
approved-has_artifact ReportStatus.exported h = refl
approved-has_artifact ReportStatus.superseded h = refl

pub ready-of : (s : ReportStatus) → is_ready s ≡ true → s ≡ ReportStatus.ready_for_review
ready-of ReportStatus.ready_for_review h = refl
ready-of ReportStatus.draft h = absurd (cc)
ready-of ReportStatus.validated h = absurd (cc)
ready-of ReportStatus.approved_internally h = absurd (cc)
ready-of ReportStatus.exported h = absurd (cc)
ready-of ReportStatus.superseded h = absurd (cc)

validated-of : (s : ReportStatus) → is_validated s ≡ true → s ≡ ReportStatus.validated
validated-of ReportStatus.validated h = refl
validated-of ReportStatus.draft h = absurd (cc)
validated-of ReportStatus.ready_for_review h = absurd (cc)
validated-of ReportStatus.approved_internally h = absurd (cc)
validated-of ReportStatus.exported h = absurd (cc)
validated-of ReportStatus.superseded h = absurd (cc)

pub supersede-Moves :
    (now actor : ℕ) (r : Report) → is_approved r.status ≡ true → Moves r (supersede now actor r)
supersede-Moves now actor r a = (
  record {
    keeps = record {
      same_id = refl;
      same_school = refl;
      same_type = refl;
      same_start = refl;
      same_end = refl;
      same_version = refl;
      artifact = inr refl;
      onward = rank_le r.status;
    };
    hashed = λ k. sym (approved-has_artifact r.status a) ∙ k;
  },
  λ k. a,
)

pub count_download-Moves : (r : Report) → Moves r (count_download r)
count_download-Moves r = (
  record {
    keeps = record {
      same_id = refl;
      same_school = refl;
      same_type = refl;
      same_start = refl;
      same_end = refl;
      same_version = refl;
      artifact = inr refl;
      onward = omega arith;
    };
    hashed = λ k. k;
  },
  λ k. k,
)

pub attach-Moves :
    (hash : ℕ) (r : Report)
    → is_some r.file_hash_sha256 ≡ false
    → is_validated r.status ≡ true
    → Moves r (attach hash r)
attach-Moves hash r bare v = (
  record {
    keeps = record {
      same_id = refl;
      same_school = refl;
      same_type = refl;
      same_start = refl;
      same_end = refl;
      same_version = refl;
      artifact = inl (bare_none r.file_hash_sha256 bare);
      onward = subst (λ s. rank s ≤ 2) (sym (validated-of r.status v)) (omega arith);
    };
    hashed = λ k. refl;
  },
  λ k. absurd (cc),
)
  where
    bare_none : (o : Option ℕ) → is_some o ≡ false → o ≡ none
    bare_none none h = refl
    bare_none (some n) h = absurd (cc)

pub approve-Carries :
    (now actor : ℕ) (r : Report) → is_ready r.status ≡ true → Carries r (approve now actor r)
approve-Carries now actor r ready = record {
  keeps = record {
    same_id = refl;
    same_school = refl;
    same_type = refl;
    same_start = refl;
    same_end = refl;
    same_version = refl;
    artifact = inr refl;
    onward = subst (λ s. rank s ≤ 3) (sym (ready-of r.status ready)) (omega arith);
  };
  hashed = λ k. sym (ap has_artifact (ready-of r.status ready)) ∙ k;
}
