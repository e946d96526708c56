-- ===== src/Ingest/Dedupe/Positions.antt =====
-- `dedupeInBatch` loses no read: each position of the batch is kept or reported, never both.
use offline_qr_school_attend.Common.{
  ℕ, ◌+◌, ◌≤◌, ◌<◌, ◌≡◌, refl, true, false, List, [], ◌∷◌, map, arith, elem, filterb, not,
  if◌then◌else◌, Bool-cases, inl, inr,
}
use offline_qr_school_attend.Common.Maps.{Map, insert, values}
use offline_qr_school_attend.Common.Sort.{count}
use offline_qr_school_attend.Ingest.Types.{Decision, NormalizedRead, Outcome}
use offline_qr_school_attend.Ingest.Decide.{reject}
use offline_qr_school_attend.Ingest.Dedupe.{keep_earliest, best_from, index_of, dedupe_in_batch}

abbrev pub outcome_index : Outcome → ℕ
outcome_index o = o.index

count-insert :
    (a k : ℕ) (r : NormalizedRead) (m : Map NormalizedRead)
    → count a (map index_of (values (insert k r m)))
      ≤ count a (map index_of (values m)) + count a (r.index ∷ [])
count-insert a k r [] = omega arith
count-insert a k r ((j, w) ∷ m) = ground (arith, count-insert a k r m)

count-keep_earliest :
    (a : ℕ) (r : NormalizedRead) (best : Map NormalizedRead)
    → count a (map index_of (values (keep_earliest r best)))
      ≤ count a (map index_of (values best)) + count a (r.index ∷ [])
unfolding keep_earliest
count-keep_earliest a r best = ground (arith, count-insert a r.epc_digest r best)

-- The kept positions are positions of the batch, no more often than there.
count-best_from :
    (a : ℕ) (best : Map NormalizedRead) (rs : List NormalizedRead)
    → count a (map index_of (values (best_from best rs)))
      ≤ count a (map index_of (values best)) + count a (map index_of rs)
unfolding best_from
count-best_from a best [] = omega arith
count-best_from a best (r ∷ rs) =
    ground (arith, count-best_from a (keep_earliest r best) rs, count-keep_earliest a r best)

elem_of_count : (a : ℕ) (keep : List ℕ) → elem a keep ≡ false → count a keep ≡ 0
elem_of_count a [] h = refl
elem_of_count a (k ∷ keep) h = ground (arith, elem_of_count a keep)

count_of_elem : (a : ℕ) (keep : List ℕ) → elem a keep ≡ true → 0 < count a keep
count_of_elem a [] h = cc
count_of_elem a (k ∷ keep) h = ground (arith, count_of_elem a keep)

abbrev others : List ℕ → List NormalizedRead → List Outcome
others keep reads =
    map (λ r. reject r Decision.duplicate_in_batch)
      (filterb (λ (r : NormalizedRead). not (elem r.index keep)) reads)

count-others :
    (a : ℕ) (keep : List ℕ) (reads : List NormalizedRead)
    → count a (map outcome_index (others keep reads))
      ≡ (if elem a keep then 0 else count a (map index_of reads))
count-others a keep [] = ground arith
count-others a keep (r ∷ reads) = elim (Bool-cases (elem r.index keep)) [
  | inl kept ↦ rw kept (ground (arith, count-others a keep reads))
  | inr dropped ↦ rw dropped (ground (arith, count-others a keep reads))
]

-- Where the reads of a batch have positions of their own, each position is that of exactly one kept
-- read or of exactly one outcome that reports a duplicate.
pub dedupe-positions :
    (reads : List NormalizedRead) (a : ℕ)
    → count a (map index_of reads) ≤ 1
    → let d = dedupe_in_batch reads in
      count a (map index_of d.unique) + count a (map outcome_index d.dupes)
      ≡ count a (map index_of reads)
unfolding dedupe_in_batch
dedupe-positions reads a h =
    let keep = map index_of (values (best_from [] reads)) in
    ground (
      arith,
      count-others a keep reads,
      count-best_from a [] reads,
      elem_of_count a keep,
      count_of_elem a keep,
    )
