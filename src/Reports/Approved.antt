-- ===== src/Reports/Approved.antt =====
-- One approved report for each type and period of a school.
use mathlib.Core.Path.{subst}
use offline_qr_school_attend.Common.{
  ℕ, ◌≡◌, refl, sym, ap, ◌∙◌, true, false, ◌&&◌, ◌||◌, List, [], ◌∷◌, map, anyb, arith, All, inl,
  inr, Bool-cases,
}
use offline_qr_school_attend.Reports.Drafts.{Report, is_approved, update_report_if}
use offline_qr_school_attend.Reports.Defs.{approve, is_ready_report, is_replaced, supersede}
use offline_qr_school_attend.Reports.Tables.{
  HasDistinctReports, HasOneApproved, Keeps, Preserves, has_id, is_approved_like, same_period,
}

same_period-Keeps :
    (r r' s s' : Report) → Keeps r r' → Keeps s s' → same_period r' s' ≡ same_period r s
same_period-Keeps r r' s s' p q = cc (
  p.same_school, p.same_type, p.same_start, p.same_end, q.same_school, q.same_type, q.same_start,
  q.same_end,
)

not_like :
    (r r' s s' : Report)
    → Keeps r r'
    → Keeps s s'
    → (is_approved s'.status ≡ true → is_approved s.status ≡ true)
    → is_approved_like r s ≡ false
    → is_approved_like r' s' ≡ false
not_like r r' s s' p q a h = elim (Bool-cases (is_approved s'.status)) [
  | inl after ↦ ground (arith, same_period-Keeps r r' s s' p q, a after, h, after)
  | inr not_after ↦ ground (arith, not_after)
]

-- An operation that approves nothing.
abbrev pub ApprovesNone : (Report → Report) → Report → Type 0
ApprovesNone f r = Preserves f r × (is_approved (f r).status ≡ true → is_approved r.status ≡ true)

none_like :
    (f : Report → Report) (r : Report) (rs : List Report)
    → Keeps r (f r)
    → All (ApprovesNone f) rs
    → anyb (is_approved_like r) rs ≡ false
    → anyb (is_approved_like (f r)) (map f rs) ≡ false
none_like f r [] p h k = refl
none_like f r (s ∷ ss) p ((q, a), h) k = ground (
  arith,
  not_like r (f r) s (f s) p q.keeps a (ground (arith, k)),
  none_like f r ss p h (ground (arith, k)),
)

pub ApprovesNone-HasOneApproved :
    (f : Report → Report) (rs : List Report)
    → All (ApprovesNone f) rs
    → HasOneApproved rs
    → HasOneApproved (map f rs)
ApprovesNone-HasOneApproved f [] h k = tt
ApprovesNone-HasOneApproved f (r ∷ rs) ((p, a), h) (q, k) =
    (λ e. none_like f r rs p.keeps h (q (a e)), ApprovesNone-HasOneApproved f rs h k)

-- Once the approved reports of a period are superseded, none of it is approved.
pub none_left :
    (school now actor : ℕ) (current : Report) (rs : List Report)
    → anyb
        (is_replaced school current)
        (map (update_report_if (is_replaced school current) (supersede now actor)) rs)
      ≡ false
none_left school now actor current [] = refl
none_left school now actor current (r ∷ rs) = elim (Bool-cases (is_replaced school current r)) [
  | inl replaced ↦ rw replaced (ground (arith, none_left school now actor current rs))
  | inr other ↦ rw other (ground (arith, other, none_left school now actor current rs))
]

same_period_sym : (r s t : Report) → same_period r s ≡ true → same_period r t ≡ same_period s t
same_period_sym r s t h =
    let a : s.school_id ≡ r.school_id = ground (arith, h) in
    let b : s.report_type ≡ r.report_type = ground (arith, h) in
    let c : s.period_start_date ≡ r.period_start_date = ground (arith, h) in
    let d : s.period_end_date ≡ r.period_end_date = ground (arith, h) in cc (a, b, c, d)

anyb-same_period :
    (r s : Report) (ts : List Report)
    → same_period r s ≡ true
    → anyb (is_approved_like s) ts ≡ anyb (is_approved_like r) ts
anyb-same_period r s [] h = refl
anyb-same_period r s (t ∷ ts) h =
    ap (λ b. (b && is_approved t.status) || anyb (is_approved_like s) ts)
      (sym (same_period_sym r s t h))
    ∙ ap (λ b. is_approved_like r t || b) (anyb-same_period r s ts h)

module _ (school id now actor : ℕ) (current : Report) where
  -- The second update of an approval.
  abbrev approve_ready : Report → Report
  approve_ready = update_report_if (is_ready_report school id) (approve now actor)

  -- What it approves is of the period.
  abbrev pub IsOfPeriod : Report → Type 0
  IsOfPeriod r = is_ready_report school id r ≡ true → same_period current r ≡ true

  unchanged : (rs : List Report) → anyb (has_id id) rs ≡ false → map approve_ready rs ≡ rs
  unchanged [] h = refl
  unchanged (r ∷ rs) h = elim (Bool-cases (is_ready_report school id r)) [
    | inl ready ↦ absurd (cc (not_ready ready h))
    | inr other ↦ rw other (ap (λ xs. r ∷ xs) (unchanged rs (ground (arith, h))))
  ]
    where
      not_ready :
          is_ready_report school id r ≡ true → anyb (has_id id) (r ∷ rs) ≡ false → false ≡ true
      not_ready p q = ground (arith, p, q)

  others :
      (r : Report) (rs : List Report)
      → same_period current r ≡ false
      → All IsOfPeriod rs
      → anyb (is_approved_like r) rs ≡ false
      → anyb (is_approved_like r) (map approve_ready rs) ≡ false
  others r [] d h k = refl
  others r (s ∷ ss) d (p, h) k = elim (Bool-cases (is_ready_report school id s)) [
    | inl ready ↦
        rw ready (ground (arith, differs s (p ready), others r ss d h (ground (arith, k))))
    | inr other ↦ rw other (ground (arith, k, others r ss d h (ground (arith, k))))
  ]
    where
      differs : (t : Report) → same_period current t ≡ true → same_period r t ≡ false
      differs t e = elim (Bool-cases (same_period r t)) [
        | inl same ↦ ground (arith, same, e, d)
        | inr other ↦ other
      ]

  pub approve_ready-HasOneApproved :
      (rs : List Report)
      → HasDistinctReports rs
      → anyb (is_approved_like current) rs ≡ false
      → All IsOfPeriod rs
      → HasOneApproved rs
      → HasOneApproved (map approve_ready rs)
  approve_ready-HasOneApproved [] d f h k = tt
  approve_ready-HasOneApproved (r ∷ rs) (d, ds) f (p, h) (q, k) =
      elim (Bool-cases (is_ready_report school id r)) [
        | inl ready ↦
            let same_id : r.id ≡ id = ground (arith, ready) in
            let rest : map approve_ready rs ≡ rs =
              unchanged rs (ap (λ i. anyb (has_id i) rs) (sym same_id) ∙ d) in
            rw ready (
              (λ e.
                  ap (anyb (is_approved_like r)) rest
                  ∙ anyb-same_period current r rs (p ready)
                  ∙ ground (arith, f)),
              subst HasOneApproved (sym rest) k,
            )
        | inr other ↦ rw other (
          (λ e. others r rs (ground (arith, e, f)) h (q e)),
          approve_ready-HasOneApproved rs ds (ground (arith, f)) h k,
        )
      ]
