-- ===== src/Reports/Steps.antt =====
-- What every run of calls keeps of the reports.
use mathlib.Core.Path.{subst}
use offline_qr_school_attend.Common.{
  ℕ, ◌≡◌, sym, ap, ◌∙◌, Bool, true, false, Option, none, some, List, [], ◌∷◌, map, anyb, find?,
  arith, All, inl, inr, Bool-cases,
}
use offline_qr_school_attend.Reports.Approved.{ApprovesNone, ApprovesNone-HasOneApproved}
use offline_qr_school_attend.Reports.Drafts.{
  Report, ReportAction, ReportDb, audit, is_report, update_report_if, update_reports,
}
use offline_qr_school_attend.Reports.Moves.{Moves, update-ApprovesNone}
use offline_qr_school_attend.Reports.Tables.{
  Extends, HasDistinctReports, HasOneApproved, Preserves, Preserves-Extends, Preserves-below,
  Preserves-distinct, Preserves-IsHashed, WellFormed, has_id,
}

-- A well-formed table after another, which it extends.
pub record Follows (before after : ReportDb) : Type 0 where
  pub well_formed : WellFormed after
  pub extends : Extends before.reports after.reports

pub audit-Follows :
    (actor : Option ℕ) (action : ReportAction) (school id : ℕ) (before db : ReportDb)
    → Follows before db
    → Follows before (audit actor action school id db)
audit-Follows none action school id before db h = h
audit-Follows (some a) action school id before db h = record {
  well_formed = record {
    below = h.well_formed.below;
    distinct = h.well_formed.distinct;
    one_approved = h.well_formed.one_approved;
    hashed = h.well_formed.hashed;
  };
  extends = h.extends;
}

-- An operation on each row.
pub map-Follows :
    (f : Report → Report) (db : ReportDb)
    → All (Preserves f) db.reports
    → (HasOneApproved db.reports → HasOneApproved (map f db.reports))
    → WellFormed db
    → Follows db (record db { reports = map f db.reports })
map-Follows f db h one w = record {
  well_formed = record {
    below = Preserves-below f db.next_id db.reports h w.below;
    distinct = Preserves-distinct f db.reports h w.distinct;
    one_approved = one w.one_approved;
    hashed = Preserves-IsHashed f db.reports h w.hashed;
  };
  extends = Preserves-Extends f db.reports h;
}

Preserves-of :
    (f : Report → Report) (rs : List Report) → All (ApprovesNone f) rs → All (Preserves f) rs
Preserves-of f [] h = tt
Preserves-of f (r ∷ rs) (p, h) = (p.0, Preserves-of f rs h)

pub none-Follows :
    (f : Report → Report) (db : ReportDb)
    → All (ApprovesNone f) db.reports
    → WellFormed db
    → Follows db (record db { reports = map f db.reports })
none-Follows f db h w =
    map-Follows f db (Preserves-of f db.reports h) (ApprovesNone-HasOneApproved f db.reports h) w

-- A row that a search by identifier finds is the only one.
no_other :
    (school id : ℕ) (current : Report) (rs : List Report)
    → anyb (has_id id) rs ≡ false
    → All (λ (r : Report). is_report school id r ≡ true → r ≡ current) rs
no_other school id current [] h = tt
no_other school id current (r ∷ rs) h =
    (λ e. absurd (cc (other e)), no_other school id current rs (ground (arith, h)))
  where
    other : is_report school id r ≡ true → false ≡ true
    other e = ground (arith, e, h)

pub found_only :
    (school id : ℕ) (current : Report) (rs : List Report)
    → HasDistinctReports rs
    → find? (is_report school id) rs ≡ some current
    → All (λ (r : Report). is_report school id r ≡ true → r ≡ current) rs
found_only school id current [] d h = tt
found_only school id current (r ∷ rs) (d, ds) h = elim (Bool-cases (is_report school id r)) [
  | inl first ↦
      let e : r ≡ current = ground (arith, first, h) in
      let same : r.id ≡ id = ground (arith, first) in
      (λ k. e, no_other school id current rs (ap (λ i. anyb (has_id i) rs) (sym same) ∙ d))
  | inr later ↦
      (λ k. absurd (cc (k, later)), found_only school id current rs ds (ground (arith, later, h)))
]

-- An update of the one row that was found.
found-Moves :
    (q : Report → Bool) (f : Report → Report) (current : Report) (rs : List Report)
    → Moves current (f current)
    → All (λ r. q r ≡ true → r ≡ current) rs
    → All (ApprovesNone (update_report_if q f)) rs
found-Moves q f current [] m h = tt
found-Moves q f current (r ∷ rs) m (p, h) = (
  update-ApprovesNone q f r (λ e. subst (λ x. Moves x (f x)) (sym (p e)) m),
  found-Moves q f current rs m h,
)

pub found-Follows :
    (school id : ℕ) (f : Report → Report) (current : Report) (db : ReportDb)
    → find? (is_report school id) db.reports ≡ some current
    → Moves current (f current)
    → WellFormed db
    → Follows db (update_reports (is_report school id) f db)
found-Follows school id f current db found m w =
    none-Follows (update_report_if (is_report school id) f) db
      (found-Moves (is_report school id) f current db.reports m
        (found_only school id current db.reports w.distinct found))
      w
