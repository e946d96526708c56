-- ===== src/Reports/Updates.antt =====
-- What a new report and an approval keep of the table.
use mathlib.Core.Path.{subst}
use offline_qr_school_attend.Common.{
  ℕ, suc, ◌<◌, ◌≡◌, refl, sym, ap, ◌∙◌, true, false, ◌&&◌, some, List, [], ◌∷◌, ◌++◌, map, anyb,
  find?, arith, All, All-append, inl, inr, Bool-cases,
}
use offline_qr_school_attend.Reports.Approved.{
  ApprovesNone, IsOfPeriod, approve_ready-HasOneApproved, none_left,
}
use offline_qr_school_attend.Reports.Drafts.{
  DraftParams, Report, ReportAction, ReportDb, draft_of, draft_period, insert_draft, is_approved,
  is_of_period, is_report, latest_report, update_report_if, update_reports,
}
use offline_qr_school_attend.Reports.Defs.{
  approve, approve_row, is_ready_report, is_replaced, supersede,
}
use offline_qr_school_attend.Reports.Moves.{approve-Carries, supersede-Moves, update-ApprovesNone}
use offline_qr_school_attend.Reports.Steps.{
  Follows, audit-Follows, found_only, map-Follows, none-Follows,
}
use offline_qr_school_attend.Reports.Tables.{
  Extends-append, Extends-refl, Extends-trans, HasDistinctReports, HasOneApproved, IsHashed,
  Keeps-refl, Preserves, WellFormed, has_id, is_approved_like, same_period,
}

-- A new report, behind the others.
below_next :
    (n : ℕ) (rs : List Report)
    → All (λ (r : Report). r.id < n) rs
    → All (λ (r : Report). r.id < suc n) rs
below_next n [] h = tt
below_next n (r ∷ rs) (p, h) = (omega (arith, p), below_next n rs h)

snoc-distinct :
    (r : Report) (rs : List Report)
    → All (λ (s : Report). s.id < r.id) rs
    → HasDistinctReports rs
    → HasDistinctReports (rs ++ r ∷ [])
snoc-distinct r [] h d = (refl, tt)
snoc-distinct r (s ∷ ss) (p, h) (d, ds) = (snoc_id s ss p d, snoc-distinct r ss h ds)
  where
    snoc_id :
        (x : Report) (xs : List Report)
        → x.id < r.id
        → anyb (has_id x.id) xs ≡ false
        → anyb (has_id x.id) (xs ++ r ∷ []) ≡ false
    snoc_id x [] lt k = ground (arith, lt)
    snoc_id x (y ∷ ys) lt k = ground (arith, k, snoc_id x ys lt)

snoc-HasOneApproved :
    (r : Report) (rs : List Report)
    → is_approved r.status ≡ false
    → HasOneApproved rs
    → HasOneApproved (rs ++ r ∷ [])
snoc-HasOneApproved r [] h k = ((λ e. refl), tt)
snoc-HasOneApproved r (s ∷ ss) h (q, k) =
    ((λ e. none_like s ss (q e)), snoc-HasOneApproved r ss h k)
  where
    none_like :
        (x : Report) (xs : List Report)
        → anyb (is_approved_like x) xs ≡ false
        → anyb (is_approved_like x) (xs ++ r ∷ []) ≡ false
    none_like x [] e = ground (arith, h)
    none_like x (y ∷ ys) e = ground (arith, e, none_like x ys)

pub insert_draft-Follows :
    (p : DraftParams) (now : ℕ) (db : ReportDb)
    → WellFormed db
    → Follows db (insert_draft p now db).db
insert_draft-Follows p now db w =
    let r = draft_of p now db.next_id (suc (latest_report (draft_period p) db.reports)) in
    audit-Follows p.actor_id ReportAction.report_draft_created p.school_id r.id db
      (record db { next_id = suc db.next_id; reports = db.reports ++ r ∷ [] })
      (record {
        well_formed = record {
          below =
              All-append (λ (x : Report). x.id < suc db.next_id) db.reports (r ∷ [])
                (below_next db.next_id db.reports w.below) (omega arith, tt);
          distinct = snoc-distinct r db.reports w.below w.distinct;
          one_approved = snoc-HasOneApproved r db.reports refl w.one_approved;
          hashed = All-append IsHashed db.reports (r ∷ []) w.hashed (refl, tt);
        };
        extends = Extends-append db.reports (r ∷ []);
      })

pub stays : (db : ReportDb) → WellFormed db → Follows db db
stays db w = record { well_formed = w; extends = Extends-refl db.reports }

-- The first update of an approval.
supersede-all :
    (school now actor : ℕ) (current : Report) (rs : List Report)
    → All (ApprovesNone (update_report_if (is_replaced school current) (supersede now actor))) rs
supersede-all school now actor current [] = tt
supersede-all school now actor current (r ∷ rs) = (
  update-ApprovesNone (is_replaced school current) (supersede now actor) r
      (λ e. supersede-Moves now actor r (ground (arith, e))),
  supersede-all school now actor current rs,
)

-- The second.
approve-all :
    (school id now actor : ℕ) (rs : List Report)
    → All (Preserves (update_report_if (is_ready_report school id) (approve now actor))) rs
approve-all school id now actor [] = tt
approve-all school id now actor (r ∷ rs) = (
  elim (Bool-cases (is_ready_report school id r)) [
    | inl ready ↦ rw ready (approve-Carries now actor r (ground (arith, ready)))
    | inr other ↦ rw other (record { keeps = Keeps-refl r; hashed = λ k. k })
  ],
  approve-all school id now actor rs,
)

module _ (school id now actor : ℕ) (current : Report) where
  -- The row to approve is the one that was found, and so of its period.
  of_period :
      (rs : List Report)
      → All (λ (r : Report). is_report school id r ≡ true → r ≡ current) rs
      → All
          (IsOfPeriod school id now actor current)
          (map (update_report_if (is_replaced school current) (supersede now actor)) rs)
  of_period [] h = tt
  of_period (r ∷ rs) (p, h) = (
    elim (Bool-cases (is_replaced school current r)) [
      | inl replaced ↦ rw replaced (λ e. absurd (cc (superseded_row e)))
      | inr other ↦ rw other (λ e.
          subst (λ x. same_period current x ≡ true) (sym (p (ground (arith, e)))) (ground arith))
    ],
    of_period rs h,
  )
    where
      superseded_row : is_ready_report school id (supersede now actor r) ≡ true → false ≡ true
      superseded_row e = ground (arith, e)

  pub approve_row-Follows :
      (db : ReportDb)
      → find? (is_report school id) db.reports ≡ some current
      → current.school_id ≡ school
      → WellFormed db
      → Follows db (approve_row school id now actor current db)
  approve_row-Follows db found same w =
      let rest = update_report_if (is_replaced school current) (supersede now actor) in
      let first : Follows db
          (update_reports (is_replaced school current) (supersede now actor) db) =
        none-Follows rest db (supersede-all school now actor current db.reports) w in
      let w1 = first.well_formed in
      let cleared : anyb (is_approved_like current) (map rest db.reports) ≡ false =
        ap
          (λ s.
            anyb
              (λ (r : Report).
                is_of_period s current.report_type current.period_start_date current.period_end_date
                  r
                && is_approved r.status)
              (map rest db.reports))
          same
        ∙ none_left school now actor current db.reports in
      let second =
        map-Follows (update_report_if (is_ready_report school id) (approve now actor))
          (update_reports (is_replaced school current) (supersede now actor) db)
          (approve-all school id now actor (map rest db.reports))
          (approve_ready-HasOneApproved school id now actor current (map rest db.reports)
            w1.distinct cleared
            (of_period db.reports (found_only school id current db.reports w.distinct found)))
          w1 in
      record {
        well_formed = second.well_formed;
        extends = Extends-trans db.reports _ _ first.extends second.extends;
      }
