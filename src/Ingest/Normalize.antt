-- ===== src/Ingest/Normalize.antt =====
-- `normalizeReads` of src/services/rfid/ingest/normalize.ts.
pub mod Partition
use Prim.Native.String.{String}
use offline_qr_school_attend.Common.{
  ℕ, suc, zero, ◌+◌, ◌*◌, ◌/◌, ◌%◌, Bool, true, false, Option, none, some, or_else, is_some, List,
  [], ◌∷◌, ◌++◌, if◌then◌else◌, ltb, leb, length, ◌≡◌, not, ◌==◌,
}
use offline_qr_school_attend.Ingest.Types.{
  Freshness, TimeSource, NormalizedRead, MalformedRead, MalformedReason,
}
use offline_qr_school_attend.Ingest.Freshness.{classify_read_time}
use offline_qr_school_attend.Ingest.Payload.{
  Json, null, bool, num, str, arr, obj, Fields, get, coalesce, is_printable,
}
use offline_qr_school_attend.Ingest.Epc.{
  EpcError, Canon, ok, err, canonicalize_epc, canonicalize_tid, get_epc_last_four, salted, Digest,
  digest, failed, compute_epc_digest, compute_tid_digest,
}

-- What the code calls and does not define: the hash, the readings of a text as a number and as a
-- date, the calendar date of an instant, and the printed forms of a digest and of an instant.
pub record Platform : Type 0 where
  pub sha256 : List ℕ → ℕ
  pub number_of : List ℕ → Option ℕ
  pub date_of : Json → Option ℕ
  pub local_date : ℕ → ℕ
  pub hex_text : ℕ → List ℕ
  pub decimal_text : ℕ → List ℕ

pub record NormalizeOpts : Type 0 where
  pub school_id : List ℕ
  pub reader_id : List ℕ
  pub now : ℕ

-- `str(v)`: a string of at most 256 characters.
unfoldable pub str_value : Option Json → Option (List ℕ)
str_value (some (str s)) = if leb (length s) 256 then some s else none
str_value _ = none

-- `a ?? b ?? c` on such values; the empty text is falsy, as is undefined.
abbrev non_empty : Option (List ℕ) → Option (List ℕ)
non_empty (some (c ∷ s)) = some (c ∷ s)
non_empty _ = none

-- The greatest instant that a `Date` holds.
abbrev pub max_date : ℕ
max_date = 8_640_000_000_000_000

abbrev valid_date : ℕ → Option ℕ
valid_date ms = if leb ms max_date then some ms else none

module _ (os : Platform) where
  unfoldable pub num_value : Option Json → Option ℕ
  num_value (some (num n)) = some n
  num_value (some (str s)) = os.number_of s
  num_value _ = none

  -- `n < 1e12 ? n * 1000 : n`
  unfoldable pub date_of_number : ℕ → Option ℕ
  date_of_number n = valid_date (if ltb n 1_000_000_000_000 then n * 1000 else n)

  -- `new Date(String(v))`; `none` is the TypeError of `String`.
  abbrev pub date_of_value : Option ℕ → Json → Option (Option ℕ)
  date_of_value (some n) v = some (date_of_number n)
  date_of_value none v = if is_printable v then some (os.date_of v) else none

  unfoldable pub parse_time : Option Json → Option (Option ℕ)
  unfolding num_value date_of_number is_printable
  parse_time none = some none
  parse_time (some null) = some none
  parse_time (some (str [])) = some none
  parse_time (some v) = date_of_value (num_value (some v)) v

  -- `readerTs && freshness !== 'MISSING_TIMESTAMP' ? readerTs : opts.now`
  unfoldable pub read_at_of : Option ℕ → Freshness → ℕ → ℕ
  read_at_of none _ now = now
  read_at_of (some ts) Freshness.missing_timestamp now = now
  read_at_of (some ts) _ now = ts

  abbrev source_of : Option ℕ → TimeSource
  source_of none = TimeSource.server
  source_of (some _) = TimeSource.reader

  -- The text that is hashed into the idempotency key.
  unfoldable pub key_text : List ℕ → Option (List ℕ) → ℕ → ℕ → List ℕ
  key_text reader (some vendor) epc_digest ms = b'v' ∷ b':' ∷ (reader ++ b':' ∷ vendor)
  key_text reader none epc_digest ms =
      b't' ∷ b':' ∷ (reader ++ b':' ∷ (os.hex_text epc_digest ++ b':' ∷ os.decimal_text ms))

  -- A bad TID is not fatal.
  abbrev tid_digest_of : Option (List ℕ) → List ℕ → Option ℕ
  tid_digest_of none salt = none
  tid_digest_of (some tid) salt = elim (compute_tid_digest os.sha256 tid salt) [
    | digest d ↦ some d
    | failed _ ↦ none
  ]

-- `str(r.epc) ?? str(r.idHex) ?? str(r.tag_id)`, unless that is empty.
unfoldable pub epc_raw_of : Fields → Option (List ℕ)
unfolding str_value get
epc_raw_of r = non_empty (
    or_else (str_value (get "epc" r))
      (or_else (str_value (get "idHex" r)) (str_value (get "tag_id" r))))

-- What one round of the loop pushes, or the error that it throws.
pub data Normalized : Type 0 where
  good : NormalizedRead → Normalized
  bad : MalformedRead → Normalized
  thrown : EpcError → Normalized
  type_error : Normalized

-- `r.firstSeen ?? r.timestamp ?? r.lastSeen`
unfoldable pub time_value : Fields → Option Json
unfolding get
time_value r = coalesce (get "firstSeen" r) (coalesce (get "timestamp" r) (get "lastSeen" r))

module _ (os : Platform) (opts : NormalizeOpts) where
  -- The read of a canonical EPC.
  unfoldable pub build_read : ℕ → Fields → List ℕ → Option ℕ → ℕ → NormalizedRead
  unfolding str_value key_text num_value read_at_of classify_read_time get get_epc_last_four
  build_read index r epc reader_ts epc_digest =
      let tid = non_empty (or_else (str_value (get "tid" r)) (str_value (get "tidHex" r))) in
      let freshness = classify_read_time os.local_date reader_ts opts.now in
      let read_at = read_at_of os reader_ts freshness opts.now in
      let vendor =
        non_empty (or_else (str_value (get "vendorEventId" r)) (str_value (get "eventId" r))) in
      record {
        index = index;
        epc_digest = epc_digest;
        epc_last4 = get_epc_last_four epc;
        tid_digest = tid_digest_of os tid opts.school_id;
        antenna = num_value os (coalesce (get "antenna" r) (get "antenna_port" r));
        rssi = num_value os (coalesce (get "peakRssi" r) (get "rssi" r));
        read_at = read_at;
        time_source = source_of os reader_ts;
        freshness = freshness;
        idempotency_key = os.sha256 (key_text os opts.reader_id vendor epc_digest read_at);
      }

  -- `computeEpcDigest(epc, …)` makes `epc` canonical once more, outside the `try`.
  abbrev with_digest : ℕ → Fields → List ℕ → Option ℕ → Digest → Normalized
  with_digest index r epc reader_ts (digest d) = good (build_read index r epc reader_ts d)
  with_digest index r epc reader_ts (failed e) = thrown e

  -- `parseTime` stands outside the `try` too.
  abbrev with_time : ℕ → Fields → List ℕ → Option (Option ℕ) → Normalized
  with_time index r epc none = type_error
  with_time index r epc (some reader_ts) =
      with_digest index r epc reader_ts (compute_epc_digest os.sha256 epc opts.school_id)

  abbrev with_canonical : ℕ → Fields → Canon → Normalized
  with_canonical index r (err _) =
      bad (record { index = index; reason = MalformedReason.invalid_epc })
  with_canonical index r (ok epc) = with_time index r epc (parse_time os (time_value r))

  abbrev with_epc : ℕ → Fields → Option (List ℕ) → Normalized
  with_epc index r none = bad (record { index = index; reason = MalformedReason.missing_epc })
  with_epc index r (some epc_raw) = with_canonical index r (canonicalize_epc epc_raw)

  unfoldable pub normalize_one : ℕ → Fields → Normalized
  unfolding build_read parse_time time_value canonicalize_epc compute_epc_digest epc_raw_of
  normalize_one index r = with_epc index r (epc_raw_of r)

-- The two arrays that the loop fills.
pub record Reads : Type 0 where
  pub reads : List NormalizedRead
  pub malformed : List MalformedRead

abbrev pub push : Normalized → Reads → Option Reads
push (good r) acc = some (record acc { reads = acc.reads ++ r ∷ [] })
push (bad m) acc = some (record acc { malformed = acc.malformed ++ m ∷ [] })
push (thrown e) acc = none
push type_error acc = none

module _ (os : Platform) (opts : NormalizeOpts) where
  -- The `forEach` from an index on; `none` is the exception.
  unfoldable pub normalize_from : ℕ → List Fields → Reads → Option Reads
  normalize_from index [] acc = some acc
  normalize_from index (r ∷ rs) acc = elim (push (normalize_one os opts index r) acc) [
    | none ↦ none
    | some acc' ↦ normalize_from (suc index) rs acc'
  ]

  unfoldable pub normalize_reads : List Fields → Option Reads
  unfolding normalize_from normalize_one
  normalize_reads raw_reads = normalize_from 0 raw_reads (record { reads = []; malformed = [] })
