-- ===== src/Qr/Rows.antt =====
-- The table of credentials after each operation.
use mathlib.Core.Path.{subst}
use offline_qr_school_attend.Common.{
  ℕ, suc, ◌≡◌, refl, ap, ◌∙◌, true, false, ◌&&◌, Option, none, some, is_some, List, [], ◌∷◌, ◌++◌,
  ◌==◌, ◌↔◌, find?, anyb, arith, inl, inr, Bool-cases, Option-cases, if◌then◌else◌,
}
use offline_qr_school_attend.Qr.Defs.{
  QrRow, create_qr_credential, has_digest, is_active_of, is_active_token, is_in_force, is_refused,
  latest_version, new_qr, reissue_qr_credential, revoke_qr_credential, verify_qr_token,
}
use offline_qr_school_attend.Qr.Appended.{
  digest_of, view, HasOneActive, find?-snoc, snoc-HasOneActive, Created,
}

none_of_free : (o : Option QrRow) → is_some o ≡ false → o ≡ none
none_of_free none h = refl
none_of_free (some r) h = absurd (cc)

some-injective : (xs ys : List QrRow) → some xs ≡ some ys → xs ≡ ys
some-injective xs ys h = cc

refused_none : (rows : List QrRow) → (let o : Option (List QrRow) = none in o ≡ some rows) → ⊥
refused_none rows h = cc

module _ (sha256 : List ℕ → ℕ) (now school student : ℕ) (raw_token : List ℕ) where
  view-snoc :
      (version a b : ℕ) (rows : List QrRow)
      → find? (is_active_of school student) rows ≡ none
      → view (rows ++ new_qr sha256 now school student raw_token version ∷ []) a b
        ≡ (if a == school && b == student then some (sha256 raw_token) else view rows a b)
  view-snoc version a b rows free =
      let r = new_qr sha256 now school student raw_token version in
      let e = find?-snoc (is_active_of a b) rows r in
      elim (Bool-cases (a == school && b == student)) [
        | inl same ↦
            let ea : a ≡ school = ground (arith, same) in
            let eb : b ≡ student = ground (arith, same) in
            let free' : find? (is_active_of a b) rows ≡ none =
              ap (λ i. find? (is_active_of i b) rows) ea
              ∙ ap (λ i. find? (is_active_of school i) rows) eb
              ∙ free in
            ground (arith, e, free', ea, eb)
        | inr other ↦ ground (arith, e, other)
      ]

  pub create_qr_credential-Created :
      (rows rows' : List QrRow)
      → create_qr_credential sha256 now school student raw_token rows ≡ some rows'
      → Created sha256 school student raw_token rows rows'
  unfolding create_qr_credential
  create_qr_credential-Created rows rows' h =
      let version = suc (latest_version school student rows) in
      let r = new_qr sha256 now school student raw_token version in
      elim (Bool-cases (is_refused sha256 school student (sha256 raw_token) rows)) [
        | inl refused ↦ absurd (
            refused_none rows'
              (subst (λ b. (if b then none else some (rows ++ r ∷ [])) ≡ some rows') refused h))
        | inr accepted ↦
            let free : find? (is_active_of school student) rows ≡ none =
              none_of_free _ (ground (arith, accepted)) in
            let e : rows ++ r ∷ [] ≡ rows' =
              some-injective _ _ (
                subst (λ b. (if b then none else some (rows ++ r ∷ [])) ≡ some rows') accepted h) in
            subst (Created sha256 school student raw_token rows) e (record {
              was_free = free;
              one_active = snoc-HasOneActive rows r free;
              viewed = λ a b. view-snoc version a b rows free;
            })
      ]

-- A token is found by its digest exactly where a student has it.
module _ (sha256 : List ℕ → ℕ) (school : ℕ) (digest : ℕ) where
  -- A row behind the first is found, since the first has another key or is revoked.
  behind :
      (r x : QrRow) (xs : List QrRow)
      → (is_in_force x.status ≡ true → find? (is_active_of x.school_id x.student_id) xs ≡ none)
      → find? (is_active_of r.school_id r.student_id) xs ≡ some r
      → find? (is_active_of r.school_id r.student_id) (x ∷ xs) ≡ some r
  behind r x xs p g = elim (Bool-cases (is_active_of r.school_id r.student_id x)) [
    | inl same ↦
        let es : x.school_id ≡ r.school_id = ground (arith, same) in
        let et : x.student_id ≡ r.student_id = ground (arith, same) in
        let missing = p (ground (arith, same)) in
        absurd (
          cc (
            ap (λ i. find? (is_active_of i x.student_id) xs) es,
            ap (λ i. find? (is_active_of r.school_id i) xs) et,
            missing,
            g,
          ))
    | inr other ↦ rw other g
  ]

  found_active :
      (rows : List QrRow) (r : QrRow)
      → HasOneActive rows
      → find? (is_active_token sha256 school digest) rows ≡ some r
      → (find? (is_active_of r.school_id r.student_id) rows ≡ some r)
        × (r.school_id ≡ school)
        × (r.token_digest ≡ digest)
        × (is_in_force r.status ≡ true)
  found_active [] r h f = absurd (cc)
  found_active (x ∷ xs) r (p, h) f = elim (Bool-cases (is_active_token sha256 school digest x)) [
    | inl first ↦
        let e : x ≡ r = ground (arith, f, first) in
        subst
          (λ (z : QrRow).
            (find? (is_active_of z.school_id z.student_id) (x ∷ xs) ≡ some z)
            × (z.school_id ≡ school)
            × (z.token_digest ≡ digest)
            × (is_in_force z.status ≡ true))
          e
          (
            ground (arith, first),
            ground (arith, first),
            ground (arith, first),
            ground (arith, first),
          )
    | inr later ↦
        let (g, s, d, a) = found_active xs r h (ground (arith, f, later)) in
        (behind r x xs p g, s, d, a)
  ]

  pub token_of_view :
      (student : ℕ) (rows : List QrRow)
      → view rows school student ≡ some digest
      → is_some (find? (is_active_token sha256 school digest) rows) ≡ true
  token_of_view student [] h = absurd (cc)
  token_of_view student (x ∷ xs) h = ground (arith, token_of_view student xs, h)

pub verify_qr_token-view :
    (sha256 : List ℕ → ℕ) (school : ℕ) (raw_token : List ℕ) (rows : List QrRow)
    → HasOneActive rows
    → (is_some (verify_qr_token sha256 school raw_token rows) ≡ true)
      ↔ ((student : ℕ) × (view rows school student ≡ some (sha256 raw_token)))
unfolding verify_qr_token
verify_qr_token-view sha256 school raw_token rows one = (
  λ h. elim (Option-cases (find? (is_active_token sha256 school (sha256 raw_token)) rows)) [
    | inl missing ↦ absurd (cc (h, missing))
    | inr (r, f) ↦
        let (g, s, d, a) = found_active sha256 school (sha256 raw_token) rows r one f in
        (
          r.student_id,
          subst (λ i. view rows i r.student_id ≡ some (sha256 raw_token)) s
              (ap digest_of g ∙ ap some d),
        )
  ],
  λ (student, v). token_of_view sha256 school (sha256 raw_token) student rows v,
)

find?-revoke_self :
    (now school student : ℕ) (rows : List QrRow)
    → find? (is_active_of school student) (revoke_qr_credential now school student rows) ≡ none
unfolding revoke_qr_credential
find?-revoke_self now school student [] = refl
find?-revoke_self now school student (r ∷ rs) =
    ground (arith, find?-revoke_self now school student rs)

anyb-revoke :
    (sha256 : List ℕ → ℕ) (now school student digest : ℕ) (rows : List QrRow)
    → anyb (has_digest sha256 school digest) (revoke_qr_credential now school student rows)
      ≡ anyb (has_digest sha256 school digest) rows
unfolding revoke_qr_credential
anyb-revoke sha256 now school student digest [] = refl
anyb-revoke sha256 now school student digest (r ∷ rs) =
    ground (arith, anyb-revoke sha256 now school student digest rs)

-- reissueQrCredential fails exactly if a row of the school, of whatever student and status, has the
-- digest of the new token already: the student's own active credential is never in the way.
pub reissue_qr_credential-fails_iff :
    (sha256 : List ℕ → ℕ) (now school student : ℕ) (raw_token : List ℕ) (rows : List QrRow)
    → (reissue_qr_credential sha256 now school student raw_token rows ≡ none)
      ↔ (anyb (has_digest sha256 school (sha256 raw_token)) rows ≡ true)
unfolding reissue_qr_credential
reissue_qr_credential-fails_iff sha256 now school student raw_token rows =
    let d = sha256 raw_token in
    let own = find?-revoke_self now school student rows in
    let same = anyb-revoke sha256 now school student d rows in
    (λ h. ground (arith, h, own, same), λ h. ground (arith, h, own, same))
