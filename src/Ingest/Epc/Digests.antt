-- ===== src/Ingest/Epc/Digests.antt =====
-- The salted digests: equal only for one badge in one school.
use offline_qr_school_attend.Common.{ℕ, ◌≡◌, refl, List, [], ◌∷◌, ◌++◌, arith, All, ◌⊎◌, inl, inr}
use offline_qr_school_attend.Ingest.Epc.{
  Canon, ok, err, canonicalize_epc, salted, digest, hash_canonical, compute_epc_digest,
}
use offline_qr_school_attend.Ingest.Epc.Canonical.{IsUpperHex, canonicalize_epc_iff}

append-colon-injective :
    (x y u v : List ℕ)
    → All IsUpperHex x
    → All IsUpperHex y
    → x ++ b':' ∷ u ≡ y ++ b':' ∷ v
    → (x ≡ y) × (u ≡ v)
append-colon-injective [] [] u v hx hy e = ground arith
append-colon-injective [] (d ∷ y) u v hx (p, hy) e = ground arith
append-colon-injective (c ∷ x) [] u v (p, hx) hy e = ground arith
append-colon-injective (c ∷ x) (d ∷ y) u v (p, hx) (q, hy) e =
    ground (arith, append-colon-injective x y u v hx hy)

pub Canon-cases :
    (r : Canon)
    → ((t : List ℕ) × (r ≡ ok t))
      ⊎ ((d : ℕ)
          → (sha256 : List ℕ → ℕ) (salt : List ℕ) → hash_canonical sha256 salt r ≡ digest d
          → ⊥)
Canon-cases (ok t) = inl (t, refl)
Canon-cases (err e) = inr (λ d sha256 salt h. cc)

module _ (sha256 : List ℕ → ℕ) where
  -- A digest is the hash of the salted canonical text.
  digest-inverse :
      (epc salt : List ℕ) (d : ℕ)
      → compute_epc_digest sha256 epc salt ≡ digest d
      → (t : List ℕ) × (canonicalize_epc epc ≡ ok t) × (d ≡ sha256 (salted t salt))
  unfolding compute_epc_digest
  digest-inverse epc salt d h = elim (Canon-cases (canonicalize_epc epc)) [
    | inl (t, e) ↦ (t, e, ground arith)
    | inr no_digest ↦ absurd (no_digest d sha256 salt h)
  ]

  -- The digest of a canonical text is made without an error.
  pub compute_epc_digest_of_canonical :
      (epc t salt : List ℕ)
      → canonicalize_epc epc ≡ ok t
      → compute_epc_digest sha256 t salt ≡ digest (sha256 (salted t salt))
  unfolding compute_epc_digest
  compute_epc_digest_of_canonical epc t salt e = rw (canonicalize_epc_iff epc t e).2

  -- The hash does not collide on two texts.
  abbrev pub NoCollision : List ℕ → List ℕ → Type 0
  NoCollision x y = sha256 x ≡ sha256 y → x ≡ y

  -- Where the hash does not collide on the salted texts, two badges with one digest have the same
  -- canonical EPC, and were read for the same school: no digest of one school is one of another.
  pub compute_epc_digest-injective :
      (a b : List ℕ) (c1 c2 d : ℕ) (s1 s2 : List ℕ)
      → ((x y : List ℕ)
          → canonicalize_epc a ≡ ok x
          → canonicalize_epc b ≡ ok y
          → NoCollision (salted x (c1 ∷ s1)) (salted y (c2 ∷ s2)))
      → compute_epc_digest sha256 a (c1 ∷ s1) ≡ digest d
      → compute_epc_digest sha256 b (c2 ∷ s2) ≡ digest d
      → (canonicalize_epc a ≡ canonicalize_epc b) × (c1 ∷ s1 ≡ c2 ∷ s2)
  unfolding salted
  compute_epc_digest-injective a b c1 c2 d s1 s2 free ha hb =
      let (x, ex, dx) = digest-inverse a (c1 ∷ s1) d ha in
      let (y, ey, dy) = digest-inverse b (c2 ∷ s2) d hb in
      let (same, salt) =
        append-colon-injective x y (c1 ∷ s1) (c2 ∷ s2) (canonicalize_epc_iff a x ex).0.digits
          (canonicalize_epc_iff b y ey).0.digits (free x y ex ey (ground arith)) in
      (ground arith, salt)
