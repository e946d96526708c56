-- ===== src/Ingest/Epc.antt =====
-- The badge identifiers of src/services/rfid/cryptoService.ts. A text is a list of code units.
-- SHA-256 is a parameter, from a text to the number that its hexadecimal digest writes.

pub mod Canonical
pub mod Digests
use offline_qr_school_attend.Common.{
  ℕ, ◌+◌, ◌-◌, ◌%◌, ◌≡◌, Bool, true, false, ◌||◌, ◌&&◌, not, List, [], ◌∷◌, ◌++◌, map,
  if◌then◌else◌, ltb, leb, ◌==◌, length, filterb, replicate,
}
use mathlib.Core.List.{reverse}

-- The white space and line ends that `trim` takes off.
unfoldable pub is_space : ℕ → Bool
is_space c =
    (leb 9 c && leb c 13)
    || c == 32
    || c == 160
    || c == 5760
    || (leb 8192 c && leb c 8202)
    || c == 8232
    || c == 8233
    || c == 8239
    || c == 8287
    || c == 12288
    || c == 65279

unfoldable pub trim_start : List ℕ → List ℕ
unfolding is_space
trim_start [] = []
trim_start (c ∷ s) = if is_space c then trim_start s else c ∷ s

unfoldable pub trim : List ℕ → List ℕ
unfolding trim_start
trim s = reverse (trim_start (reverse (trim_start s)))

-- `if (cleaned.startsWith('0x') || cleaned.startsWith('0X')) cleaned = cleaned.slice(2);`
unfoldable pub strip_prefix : List ℕ → List ℕ
strip_prefix (c ∷ d ∷ s) = if c == b'0' && (d == b'x' || d == b'X') then s else c ∷ d ∷ s
strip_prefix s = s

-- The class `[a-fA-F0-9]`.
unfoldable pub is_hex : ℕ → Bool
is_hex c = (leb b'a' c && leb c b'f') || (leb b'A' c && leb c b'F') || (leb b'0' c && leb c b'9')

-- `toUpperCase` on a hexadecimal digit.
unfoldable pub to_upper : ℕ → ℕ
to_upper c = if leb b'a' c && leb c b'z' then c - 32 else c

pub data EpcError : Type 0 where
  required : EpcError
  invalid_length : ℕ → EpcError
  odd_length : ℕ → EpcError

pub data Canon : Type 0 where
  ok : List ℕ → Canon
  err : EpcError → Canon

-- `cleaned.replace(/[^a-fA-F0-9]/g, '').toUpperCase()`
unfoldable pub hex_digits : List ℕ → List ℕ
unfolding is_hex to_upper
hex_digits s = map to_upper (filterb is_hex s)

-- The checks on the length.
unfoldable pub check_length : List ℕ → Canon
check_length s =
    if ltb (length s) 16 || ltb 64 (length s)
    then err (EpcError.invalid_length (length s))
    else if not (length s % 2 == 0)
    then err (EpcError.odd_length (length s))
    else ok s

unfoldable pub canonicalize_epc : List ℕ → Canon
unfolding trim strip_prefix hex_digits check_length
canonicalize_epc [] = err EpcError.required
canonicalize_epc (c ∷ s) = check_length (hex_digits (strip_prefix (trim (c ∷ s))))

-- `canonicalizeTid` has the same steps.
unfoldable pub canonicalize_tid : List ℕ → Canon
unfolding trim strip_prefix hex_digits check_length
canonicalize_tid [] = err EpcError.required
canonicalize_tid (c ∷ s) = check_length (hex_digits (strip_prefix (trim (c ∷ s))))

-- `s.slice(-n)`
unfoldable pub last_n : ℕ → List ℕ → List ℕ
last_n n [] = []
last_n n (c ∷ s) = if leb (length (c ∷ s)) n then c ∷ s else last_n n s

unfoldable pub get_epc_last_four : List ℕ → List ℕ
unfolding canonicalize_epc last_n
get_epc_last_four epc = elim (canonicalize_epc epc) [
  | ok canonical ↦ last_n 4 canonical
  | err _ ↦ b'*' ∷ b'*' ∷ b'*' ∷ b'*' ∷ []
]

-- `salt ? canonical + ':' + salt : canonical`
unfoldable pub salted : List ℕ → List ℕ → List ℕ
salted canonical [] = canonical
salted canonical (c ∷ s) = canonical ++ b':' ∷ c ∷ s

-- `crypto.createHash('sha256')…digest('hex')`, or the error that `canonicalizeEpc` throws.
pub data Digest : Type 0 where
  digest : ℕ → Digest
  failed : EpcError → Digest

module _ (sha256 : List ℕ → ℕ) where
  abbrev hash_canonical : List ℕ → Canon → Digest
  hash_canonical salt (ok canonical) = digest (sha256 (salted canonical salt))
  hash_canonical salt (err e) = failed e

  unfoldable pub compute_epc_digest : List ℕ → List ℕ → Digest
  unfolding canonicalize_epc salted
  compute_epc_digest epc salt = hash_canonical salt (canonicalize_epc epc)

  unfoldable pub compute_tid_digest : List ℕ → List ℕ → Digest
  unfolding canonicalize_tid salted
  compute_tid_digest tid salt = hash_canonical salt (canonicalize_tid tid)

-- `redactCredentialDigest`: all but the last eight characters become stars.
unfoldable pub redact_credential_digest : List ℕ → List ℕ
unfolding last_n
redact_credential_digest s =
    if ltb (length s) 8
    then b'*' ∷ b'*' ∷ b'*' ∷ []
    else replicate (length s - 8) b'*' ++ last_n 8 s
