-- ===== src/Ingest/Normalize/Partition.antt =====
-- Where every time can be printed, `normalizeReads` returns, and it shares the payload's positions out between its two arrays.
use offline_qr_school_attend.Common.{
  ℕ, suc, ◌+◌, ◌≡◌, refl, Option, none, some, List, [], ◌∷◌, ◌++◌, map, arith, length, Bool, true,
  All,
}
use mathlib.Core.List.{map-append}
use offline_qr_school_attend.Common.Sort.{count, count-append, iota}
use offline_qr_school_attend.Ingest.Types.{MalformedRead}
use offline_qr_school_attend.Ingest.Payload.{
  Json, null, bool, num, str, arr, obj, Fields, is_printable,
}
use offline_qr_school_attend.Ingest.Epc.{Canon, ok, err, canonicalize_epc}
use offline_qr_school_attend.Ingest.Epc.Digests.{compute_epc_digest_of_canonical}
use offline_qr_school_attend.Ingest.Dedupe.{index_of}
use offline_qr_school_attend.Ingest.Normalize.{
  Platform, NormalizeOpts, Normalized, good, bad, thrown, type_error, num_value, date_of_number,
  date_of_value, parse_time, time_value, build_read, with_canonical, with_epc, epc_raw_of,
  normalize_one, Reads, push, normalize_from, normalize_reads,
}

abbrev pub malformed_index : MalformedRead → ℕ
malformed_index m = m.index

-- The time of a raw read is missing, or `String` prints it.
abbrev is_readable_value : Option Json → Bool
is_readable_value none = true
is_readable_value (some v) = is_printable v

unfoldable pub is_readable : Fields → Bool
unfolding time_value is_printable
is_readable r = is_readable_value (time_value r)

abbrev pub IsReadable : Fields → Type 0
IsReadable r = is_readable r ≡ true

abbrev pub positions : Reads → List ℕ
positions acc = map index_of acc.reads ++ map malformed_index acc.malformed

module _ (os : Platform) (opts : NormalizeOpts) where
  -- A round pushes one element, with its own index.
  abbrev Pushes : ℕ → Normalized → Type 0
  Pushes index (good r) = r.index ≡ index
  Pushes index (bad m) = m.index ≡ index
  Pushes index (thrown e) = ⊥
  Pushes index type_error = ⊥

  build_read_index :
      (index : ℕ) (r : Fields) (t : List ℕ) (ts : Option ℕ) (d : ℕ)
      → (build_read os opts index r t ts d).index ≡ index
  unfolding build_read
  build_read_index index r t ts d = refl

  date_of_value_total :
      (n : Option ℕ) (v : Json)
      → is_printable v ≡ true
      → (ts : Option ℕ) × (date_of_value os n v ≡ some ts)
  date_of_value_total (some n) v h = (date_of_number os n, refl)
  date_of_value_total none v h = (os.date_of v, rw h refl)

  -- A time that can be printed is read.
  parse_time_total :
      (o : Option Json) → is_readable_value o ≡ true → (ts : Option ℕ) × (parse_time os o ≡ some ts)
  unfolding parse_time
  parse_time_total none h = (none, refl)
  parse_time_total (some null) h = (none, refl)
  parse_time_total (some (str [])) h = (none, refl)
  parse_time_total (some (bool b)) h = date_of_value_total (num_value os (some (bool b))) (bool b) h
  parse_time_total (some (num n)) h = date_of_value_total (num_value os (some (num n))) (num n) h
  parse_time_total (some (str (c ∷ s))) h =
      date_of_value_total (num_value os (some (str (c ∷ s)))) (str (c ∷ s)) h
  parse_time_total (some (arr xs)) h = date_of_value_total (num_value os (some (arr xs))) (arr xs) h
  parse_time_total (some (obj fs)) h = date_of_value_total (num_value os (some (obj fs))) (obj fs) h

  Pushes-with_canonical :
      (index : ℕ) (r : Fields) (epc : List ℕ) (c : Canon)
      → is_readable r ≡ true
      → canonicalize_epc epc ≡ c
      → Pushes index (with_canonical os opts index r c)
  unfolding is_readable
  Pushes-with_canonical index r epc (err e) readable h = refl
  Pushes-with_canonical index r epc (ok t) readable h =
      let (ts, parsed) = parse_time_total (time_value r) readable in
      rw (parsed, compute_epc_digest_of_canonical os.sha256 epc t opts.school_id h)
        (build_read_index index r t ts _)

  Pushes-with_epc :
      (index : ℕ) (r : Fields) (o : Option (List ℕ))
      → is_readable r ≡ true
      → Pushes index (with_epc os opts index r o)
  Pushes-with_epc index r none h = refl
  Pushes-with_epc index r (some epc) h =
      Pushes-with_canonical index r epc (canonicalize_epc epc) h refl

  pub normalize_one-Pushes :
      (index : ℕ) (r : Fields) → is_readable r ≡ true → Pushes index (normalize_one os opts index r)
  unfolding normalize_one
  normalize_one-Pushes index r h = Pushes-with_epc index r (epc_raw_of r) h

  -- What a push does to the positions.
  push-positions :
      (index : ℕ) (x : Normalized) (acc : Reads)
      → Pushes index x
      → (acc' : Reads) × (push x acc ≡ some acc')
        × ((a : ℕ) → count a (positions acc') ≡ count a (positions acc) + count a (index ∷ []))
  push-positions index (good r) acc h = (
    record acc { reads = acc.reads ++ r ∷ [] },
    refl,
    λ a. simp (map-append, count-append) (ground arith),
  )
  push-positions index (bad m) acc h = (
    record acc { malformed = acc.malformed ++ m ∷ [] },
    refl,
    λ a. simp (map-append, count-append) (ground arith),
  )
  push-positions index (thrown e) acc h = absurd h
  push-positions index type_error acc h = absurd h

  normalize_from-positions :
      (index : ℕ) (raw : List Fields) (acc : Reads)
      → All IsReadable raw
      → (acc' : Reads) × (normalize_from os opts index raw acc ≡ some acc')
        × ((a : ℕ)
            → count a (positions acc')
              ≡ count a (positions acc) + count a (iota index (length raw)))
  unfolding normalize_from
  normalize_from-positions index [] acc h = (acc, refl, λ a. omega arith)
  normalize_from-positions index (r ∷ rs) acc (h, hs) =
      let (next, pushed, counted) =
        push-positions index (normalize_one os opts index r) acc (normalize_one-Pushes index r h) in
      let (acc', e, rest) = normalize_from-positions (suc index) rs next hs in
      (acc', rw (pushed, normalize_from) e, λ a. ground (arith, counted a, rest a))

  -- Where the time of each raw read is missing or can be printed, normalising returns, and each
  -- position of the payload is that of exactly one read or of exactly one malformed entry.
  pub normalize_reads-positions :
      (raw : List Fields)
      → All IsReadable raw
      → (acc : Reads) × (normalize_reads os opts raw ≡ some acc)
        × ((a : ℕ) → count a (positions acc) ≡ count a (iota 0 (length raw)))
  unfolding normalize_reads
  normalize_reads-positions raw h =
      let (acc, e, counted) =
        normalize_from-positions 0 raw (record { reads = []; malformed = [] }) h in
      (acc, e, λ a. omega (arith, counted a))
