-- ===== src/Ingest/Decide/Explained.antt =====
-- What each decision of `decide_read` says about the data that it was taken from.
use text.Mathlib.Text.{◌==◌ as str_eq}
use text.Mathlib.TextEquality.{eq_iff}
use offline_qr_school_attend.Common.{
  ◌≡◌, ◌≢◌, refl, not, ◌&&◌, is_some, true, false, none, some, arith, elem, Option-cases, inl, inr,
  ◌⊎◌, Option,
}
use offline_qr_school_attend.Common.Maps.{lookup, has}
use offline_qr_school_attend.Ingest.Types.{
  Decision, Freshness, NormalizedRead, IngestContext, Outcome, CredentialRow, StudentRow,
  EnrollmentRow, SessionRow, SessionStatus,
}
use offline_qr_school_attend.Ingest.Decide.{
  decide_read, is_future_skew, is_wrong_school_day, session_is_finalized, settle-stop_if,
  settle-or_stop,
}

session_is_finalized-true :
    (o : Option SessionRow)
    → session_is_finalized o ≡ true
    → (w : SessionRow) × (o ≡ some w) × (w.status ≡ SessionStatus.finalized)
session_is_finalized-true none h = cc
session_is_finalized-true (some w) h = (w, refl, ground arith)

module _ (read : NormalizedRead) (ctx : IngestContext) where
  -- The reader's clock is sane and the badge has not been accepted a moment ago.
  pub record IsTimely : Type 0 where
    pub no_skew : read.freshness ≢ Freshness.future_skew
    pub same_day : read.freshness ≢ Freshness.wrong_school_day
    pub not_debounced : elem read.epc_digest ctx.debounced ≡ false

  -- The badge is registered and active.
  pub record HasBadge (c : CredentialRow) : Type 0 where
    pub registered : lookup read.epc_digest ctx.creds_by_digest ≡ some c
    pub active : c.status ≡ "ACTIVE"

  -- It belongs to an active student.
  pub record HasStudent (c : CredentialRow) (s : StudentRow) : Type 0 where
    pub badge : HasBadge c
    pub known : lookup c.student_id ctx.students_by_id ≡ some s
    pub active : s.status ≡ "ACTIVE"

  pub record HasSection (c : CredentialRow) (s : StudentRow) (e : EnrollmentRow) : Type 0 where
    pub student : HasStudent c s
    pub enrolled : lookup s.id ctx.enrollment_by_student ≡ some e

  -- The section's session of the day can take the mark: it exists and is not final, or it can be
  -- opened for an assigned teacher.
  abbrev pub CanMark : EnrollmentRow → Type 0
  CanMark e =
      ((s : SessionRow) × (lookup e.class_section_id ctx.session_by_section ≡ some s)
        × (s.status ≢ SessionStatus.finalized))
      ⊎ ((lookup e.class_section_id ctx.session_by_section ≡ none)
          × (lookup e.class_section_id ctx.teacher_by_section ≢ none))

  pub record Admissible (c : CredentialRow) (s : StudentRow) (e : EnrollmentRow) : Type 0 where
    pub timely : IsTimely
    pub section : HasSection c s e
    pub open_day : ctx.is_school_day ≡ true
    pub session : CanMark e

  can_mark :
      (e : EnrollmentRow)
      → session_is_finalized (lookup e.class_section_id ctx.session_by_section) ≡ false
      → (not (is_some (lookup e.class_section_id ctx.session_by_section))
          && not (has e.class_section_id ctx.teacher_by_section))
        ≡ false
      → CanMark e
  can_mark e h k = elim (Option-cases (lookup e.class_section_id ctx.session_by_section)) [
    | inl missing ↦ inr (missing, ground arith)
    | inr (s, found) ↦ inl (s, found, ground arith)
  ]

  unstaffed :
      (e : EnrollmentRow)
      → (not (is_some (lookup e.class_section_id ctx.session_by_section))
          && not (has e.class_section_id ctx.teacher_by_section))
        ≡ true
      → (lookup e.class_section_id ctx.session_by_section ≡ none)
        × (lookup e.class_section_id ctx.teacher_by_section ≡ none)
  unstaffed e h = ground arith

  -- What a decision states of the read and the rows.
  abbrev pub Says : Decision → Type 0
  Says Decision.future_skew = read.freshness ≡ Freshness.future_skew
  Says Decision.wrong_school_day = read.freshness ≡ Freshness.wrong_school_day
  Says Decision.duplicate_debounced = elem read.epc_digest ctx.debounced ≡ true
  Says Decision.unregistered_card = lookup read.epc_digest ctx.creds_by_digest ≡ none
  Says Decision.suspended_card =
      (c : CredentialRow) × (lookup read.epc_digest ctx.creds_by_digest ≡ some c)
      × (c.status ≢ "ACTIVE")
  Says Decision.credential_orphaned =
      (c : CredentialRow) × HasBadge c × (lookup c.student_id ctx.students_by_id ≡ none)
  Says Decision.student_inactive =
      (c : CredentialRow) × (s : StudentRow) × HasBadge c
      × (lookup c.student_id ctx.students_by_id ≡ some s)
      × (s.status ≢ "ACTIVE")
  Says Decision.not_enrolled =
      (c : CredentialRow) × (s : StudentRow) × HasStudent c s
      × (lookup s.id ctx.enrollment_by_student ≡ none)
  Says Decision.school_closed =
      (c : CredentialRow) × (s : StudentRow) × (e : EnrollmentRow) × HasSection c s e
      × (ctx.is_school_day ≡ false)
  Says Decision.session_finalized =
      (c : CredentialRow) × (s : StudentRow) × (e : EnrollmentRow) × HasSection c s e
      × ((w : SessionRow) × (lookup e.class_section_id ctx.session_by_section ≡ some w)
          × (w.status ≡ SessionStatus.finalized))
  Says Decision.no_teacher_assigned =
      (c : CredentialRow) × (s : StudentRow) × (e : EnrollmentRow) × HasSection c s e
      × ((lookup e.class_section_id ctx.session_by_section ≡ none)
          × (lookup e.class_section_id ctx.teacher_by_section ≡ none))
  Says Decision.accepted =
      (c : CredentialRow) × (s : StudentRow) × (e : EnrollmentRow) × Admissible c s e
  Says _ = ⊥

  -- The conditions of acceptance are complete: a read that meets them is accepted, with the
  -- identifiers of its credential, student and section.
  decide-accepted :
      (c : CredentialRow) (s : StudentRow) (e : EnrollmentRow)
      → Admissible c s e
      → let o = decide_read read ctx in
        (o.decision ≡ Decision.accepted)
        × (o.credential_id ≡ some c.id)
        × (o.student_id ≡ some s.id)
        × (o.class_section_id ≡ some e.class_section_id)
  unfolding decide_read
  decide-accepted c s e a = ground (arith, eq_iff c.status "ACTIVE", eq_iff s.status "ACTIVE")

  -- Every decision is true of the data.
  pub decide-Says : Says (decide_read read ctx).decision
  unfolding decide_read
  decide-Says =
      settle-stop_if P (is_future_skew read.freshness) _ _ (λ h. ground arith)
        λ skew.
          settle-stop_if P (is_wrong_school_day read.freshness) _ _ (λ h. ground arith)
            λ day.
              settle-stop_if P (elem read.epc_digest ctx.debounced) _ _ (λ h. h)
                λ old.
                  let timely : IsTimely = ground arith in
                  settle-or_stop P (lookup read.epc_digest ctx.creds_by_digest) _ _ (λ h. h)
                    λ c registered.
                      settle-stop_if P (not (str_eq c.status "ACTIVE")) _ _
                        (λ h. (c, registered, ground (arith, eq_iff c.status "ACTIVE")))
                        λ ca.
                          let badge : HasBadge c = ground (arith, eq_iff c.status "ACTIVE") in
                          settle-or_stop P (lookup c.student_id ctx.students_by_id) _ _
                            (λ h. (c, badge, h))
                            λ s known.
                              settle-stop_if P (not (str_eq s.status "ACTIVE")) _ _
                                (λ h.
                                  (c, s, badge, known, ground (arith, eq_iff s.status "ACTIVE")))
                                λ sa.
                                  let student : HasStudent c s =
                                    ground (arith, eq_iff s.status "ACTIVE") in
                                  settle-or_stop P (lookup s.id ctx.enrollment_by_student) _ _
                                    (λ h. (c, s, student, h))
                                    λ e enrolled.
                                      let section : HasSection c s e = record {
                                        student = student;
                                        enrolled = enrolled;
                                      } in
                                      settle-stop_if P (not ctx.is_school_day) _ _
                                        (λ h. (c, s, e, section, ground arith))
                                        λ open_day.
                                          settle-stop_if P
                                            (session_is_finalized
                                              (lookup e.class_section_id ctx.session_by_section))
                                            _ _
                                            (λ h. (c, s, e, section, session_is_finalized-true _ h))
                                            λ not_final.
                                              settle-stop_if P
                                                (not (
                                                    is_some (
                                                      lookup e.class_section_id
                                                        ctx.session_by_section))
                                                  && not (
                                                      has e.class_section_id
                                                        ctx.teacher_by_section))
                                                _ _ (λ h. (c, s, e, section, unstaffed e h))
                                                λ staffed. (
                                                  c,
                                                  s,
                                                  e,
                                                  record {
                                                    timely = timely;
                                                    section = section;
                                                    open_day = ground arith;
                                                    session = can_mark e not_final staffed;
                                                  },
                                                )
    where
      P : Outcome → Type 0
      P o = Says o.decision
