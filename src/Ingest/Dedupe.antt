-- ===== src/Ingest/Dedupe.antt =====
-- `dedupeInBatch` of src/services/rfid/ingest/normalize.ts.
pub mod Kept
pub mod Positions
use offline_qr_school_attend.Common.{
  ℕ, Bool, true, Option, none, some, List, [], ◌∷◌, map, if◌then◌else◌, ltb, elem, filterb, not,
}
use offline_qr_school_attend.Common.Maps.{Map, lookup, insert, values}
use offline_qr_school_attend.Ingest.Types.{Decision, NormalizedRead, Outcome}
use offline_qr_school_attend.Ingest.Decide.{reject}

-- `!cur || r.readAt < cur.readAt`
abbrev pub is_better : NormalizedRead → Option NormalizedRead → Bool
is_better r none = true
is_better r (some cur) = ltb r.read_at cur.read_at

-- One round of the first loop.
unfoldable pub keep_earliest : NormalizedRead → Map NormalizedRead → Map NormalizedRead
keep_earliest r best =
    if is_better r (lookup r.epc_digest best) then insert r.epc_digest r best else best

unfoldable pub best_from : Map NormalizedRead → List NormalizedRead → Map NormalizedRead
best_from best [] = best
best_from best (r ∷ rs) = best_from (keep_earliest r best) rs

abbrev pub index_of : NormalizedRead → ℕ
index_of r = r.index

-- The reads that are kept, and the others as outcomes.
pub record Deduped : Type 0 where
  pub unique : List NormalizedRead
  pub dupes : List Outcome

unfoldable pub dedupe_in_batch : List NormalizedRead → Deduped
unfolding keep_earliest best_from
dedupe_in_batch reads =
    let best = best_from [] reads in
    let keep = map index_of (values best) in
    record {
      unique = values best;
      dupes =
          map (λ r. reject r Decision.duplicate_in_batch)
            (filterb (λ (r : NormalizedRead). not (elem r.index keep)) reads);
    }
