-- ===== src/Ingest/Dedupe/Kept.antt =====
-- What `dedupeInBatch` keeps.
use offline_qr_school_attend.Common.{
  ℕ, ◌≤◌, ◌≡◌, refl, Bool, none, some, List, [], ◌∷◌, map, arith, ltb, ◌==◌, ◌&&◌, if◌then◌else◌,
  All, Bool-cases, Option-cases, inl, inr, find?, ◌∙◌,
}
use offline_qr_school_attend.Common.Maps.{Map, lookup, insert, values, lookup-insert}
use offline_qr_school_attend.Common.Sort.{count}
use offline_qr_school_attend.Ingest.Types.{NormalizedRead}
use offline_qr_school_attend.Ingest.Dedupe.{is_better, keep_earliest, best_from, dedupe_in_batch}

-- The earliest of a read and of what is stored, as `keep_earliest` computes it.
lookup-keep_earliest :
    (d : ℕ) (r : NormalizedRead) (best : Map NormalizedRead)
    → lookup d (keep_earliest r best) ≡ (
        if d == r.epc_digest && is_better r (lookup r.epc_digest best)
        then some r
        else lookup d best)
unfolding keep_earliest
lookup-keep_earliest d r best = ground (arith, lookup-insert d r.epc_digest r best)

-- A read of the same badge is stored, and is no later.
abbrev pub Earliest : Map NormalizedRead → NormalizedRead → Type 0
Earliest best r =
    (u : NormalizedRead) × (lookup r.epc_digest best ≡ some u) × (u.read_at ≤ r.read_at)

keep_earliest_self :
    (r : NormalizedRead) (best : Map NormalizedRead) → Earliest (keep_earliest r best) r
keep_earliest_self r best = elim (Option-cases (lookup r.epc_digest best)) [
  | inl missing ↦ (r, rw lookup-keep_earliest (ground arith), ground arith)
  | inr (u, found) ↦ elim (Bool-cases (ltb r.read_at u.read_at)) [
    | inl lt ↦ (r, rw lookup-keep_earliest (ground arith), ground arith)
    | inr ge ↦ (u, rw lookup-keep_earliest (ground arith), ground arith)
  ]
]

keep_earliest_other :
    (x r : NormalizedRead) (best : Map NormalizedRead)
    → Earliest best r
    → Earliest (keep_earliest x best) r
keep_earliest_other x r best (u, found, le) =
    elim (Bool-cases (r.epc_digest == x.epc_digest && is_better x (lookup x.epc_digest best))) [
      | inl replaced ↦ (x, rw lookup-keep_earliest (rw replaced), ground (arith, found, le))
      | inr kept ↦ (u, rw lookup-keep_earliest (rw kept found), le)
    ]

best_from_keeps :
    (r : NormalizedRead) (best : Map NormalizedRead) (rs : List NormalizedRead)
    → Earliest best r
    → Earliest (best_from best rs) r
unfolding best_from
best_from_keeps r best [] h = h
best_from_keeps r best (x ∷ rs) h =
    best_from_keeps r (keep_earliest x best) rs (keep_earliest_other x r best h)

pub best_from-Earliest :
    (best : Map NormalizedRead) (rs : List NormalizedRead) → All (Earliest (best_from best rs)) rs
unfolding best_from
best_from-Earliest best [] = tt
best_from-Earliest best (r ∷ rs) = (
  best_from_keeps r (keep_earliest r best) rs (keep_earliest_self r best),
  best_from-Earliest (keep_earliest r best) rs,
)

-- Each read stands under its own digest, and no digest stands twice.
abbrev pub IsTidy : Map NormalizedRead → Type 0
IsTidy [] = Unit
IsTidy ((k, r) ∷ m) = (r.epc_digest ≡ k) × (lookup k m ≡ none) × IsTidy m

insert-IsTidy :
    (r : NormalizedRead) (m : Map NormalizedRead) → IsTidy m → IsTidy (insert r.epc_digest r m)
insert-IsTidy r [] h = (refl, refl, tt)
insert-IsTidy r ((k, w) ∷ m) (own, new, h) =
    ground (arith, insert-IsTidy r m h, lookup-insert k r.epc_digest r m)

keep_earliest-IsTidy :
    (r : NormalizedRead) (best : Map NormalizedRead) → IsTidy best → IsTidy (keep_earliest r best)
unfolding keep_earliest
keep_earliest-IsTidy r best h = elim (Bool-cases (is_better r (lookup r.epc_digest best))) [
  | inl better ↦ rw better (insert-IsTidy r best h)
  | inr worse ↦ rw worse h
]

best_from-IsTidy :
    (best : Map NormalizedRead) (rs : List NormalizedRead)
    → IsTidy best
    → IsTidy (best_from best rs)
unfolding best_from
best_from-IsTidy best [] h = h
best_from-IsTidy best (r ∷ rs) h =
    best_from-IsTidy (keep_earliest r best) rs (keep_earliest-IsTidy r best h)

abbrev pub has_digest : ℕ → NormalizedRead → Bool
has_digest d r = r.epc_digest == d

abbrev pub digest_of : NormalizedRead → ℕ
digest_of r = r.epc_digest

find?-values :
    (d : ℕ) (m : Map NormalizedRead) → IsTidy m → find? (has_digest d) (values m) ≡ lookup d m
find?-values d [] h = refl
find?-values d ((k, r) ∷ m) (own, new, h) = ground (arith, find?-values d m h)

count_of_missing :
    (d : ℕ) (m : Map NormalizedRead)
    → IsTidy m
    → lookup d m ≡ none
    → count d (map digest_of (values m)) ≡ 0
count_of_missing d [] h e = refl
count_of_missing d ((k, r) ∷ m) (own, new, h) e = ground (arith, count_of_missing d m h)

count-le-one : (d : ℕ) (m : Map NormalizedRead) → IsTidy m → count d (map digest_of (values m)) ≤ 1
count-le-one d [] h = omega arith
count-le-one d ((k, r) ∷ m) (own, new, h) = elim (Bool-cases (d == k)) [
  | inl same ↦ let e : d ≡ k = ground arith in ground (arith, count_of_missing d m h (rw e new))
  | inr other ↦ ground (arith, count-le-one d m h)
]

All-imp {ℓ κ} :
    {A : Type 0} {P : A → Type ℓ} {Q : A → Type κ} (f : (a : A) → P a → Q a) (xs : List A)
    → All P xs
    → All Q xs
All-imp f [] h = tt
All-imp f (x ∷ xs) (p, h) = (f x p, All-imp f xs h)

-- For every read of a batch, the kept reads hold one of the same badge that was seen no later.
pub dedupe-earliest :
    (reads : List NormalizedRead)
    → All
        (λ r.
          (u : NormalizedRead) × (find? (has_digest r.epc_digest) (dedupe_in_batch reads).unique
            ≡ some u)
          × (u.read_at ≤ r.read_at))
        reads
unfolding dedupe_in_batch
dedupe-earliest reads =
    let tidy = best_from-IsTidy [] reads tt in
    All-imp
      (λ r (u, found, le). (u, find?-values r.epc_digest (best_from [] reads) tidy ∙ found, le))
      reads (best_from-Earliest [] reads)

-- No badge is kept twice.
dedupe-distinct :
    (reads : List NormalizedRead) (d : ℕ)
    → count d (map digest_of (dedupe_in_batch reads).unique) ≤ 1
unfolding dedupe_in_batch
dedupe-distinct reads d = count-le-one d (best_from [] reads) (best_from-IsTidy [] reads tt)
