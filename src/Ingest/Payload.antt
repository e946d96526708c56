-- ===== src/Ingest/Payload.antt =====
-- The request body, and `extractRawReads` of src/services/rfid/ingest/normalize.ts.
-- A body is parsed JSON whose numbers are whole and not negative.

use Prim.Native.String.{String}
use text.Mathlib.Text.{◌==◌ as str_eq}
use offline_qr_school_attend.Common.{
  ℕ, Bool, true, false, ◌||◌, ◌&&◌, Option, none, some, List, [], ◌∷◌, map, if◌then◌else◌, ltb,
  ◌==◌, length, not,
}

mutual
  pub data Json : Type 0 where
    null : Json
    bool : Bool → Json
    num : ℕ → Json
    str : List ℕ → Json
    arr : Items → Json
    obj : Fields → Json

  pub data Items : Type 0 where
    nil : Items
    cons : Json → Items → Items

  pub data Fields : Type 0 where
    end : Fields
    field : String → Json → Fields → Fields

-- `rec[key]`, with `none` for undefined.
unfoldable pub get : String → Fields → Option Json
get key end = none
get key (field k v fs) = if str_eq k key then some v else get key fs

-- The fields but those called `key`.
unfoldable pub without : String → Fields → Fields
without key end = end
without key (field k v fs) = if str_eq k key then without key fs else field k v (without key fs)

unfoldable pub items : Items → List Json
items nil = []
items (cons x xs) = x ∷ items xs

abbrev is_forbidden : String → Bool
is_forbidden key = str_eq key "__proto__" || str_eq key "constructor" || str_eq key "prototype"

-- `sanitizePayload`: an array is an object whose keys are its indices.
unfoldable mutual
  pub sanitize_payload : Json → Bool
  sanitize_payload (arr xs) = sanitize_items xs
  sanitize_payload (obj fs) = sanitize_fields fs
  sanitize_payload null = true
  sanitize_payload (bool b) = true
  sanitize_payload (num n) = true
  sanitize_payload (str s) = true

  pub sanitize_items : Items → Bool
  sanitize_items nil = true
  sanitize_items (cons x xs) = sanitize_payload x && sanitize_items xs

  pub sanitize_fields : Fields → Bool
  sanitize_fields end = true
  sanitize_fields (field k v fs) =
      not (is_forbidden k) && (sanitize_payload v && sanitize_fields fs)

-- `String(v)` prints a value, or throws: an object whose own `toString` is a value of JSON, which is
-- no function, has no primitive value, and an array prints its elements.
unfoldable mutual
  pub is_printable : Json → Bool
  is_printable (arr xs) = are_printable xs
  is_printable (obj fs) = not (is_own "toString" fs)
  is_printable null = true
  is_printable (bool b) = true
  is_printable (num n) = true
  is_printable (str s) = true

  pub are_printable : Items → Bool
  are_printable nil = true
  are_printable (cons x xs) = is_printable x && are_printable xs

  pub is_own : String → Fields → Bool
  is_own key end = false
  is_own key (field k v fs) = str_eq k key || is_own key fs

pub data PayloadError : Type 0 where
  malformed_payload batch_too_large : PayloadError

pub data Extracted : Type 0 where
  reads : List Fields → Extracted
  refused : PayloadError → Extracted

-- `MAX_BATCH_READS` of src/services/rfid/zebraIotConnector.ts.
abbrev pub max_batch_reads : ℕ
max_batch_reads = 250

-- `a ?? b`
abbrev pub coalesce : Option Json → Option Json → Option Json
coalesce none b = b
coalesce (some null) b = b
coalesce (some v) b = some v

-- JavaScript's truth value of a property.
unfoldable pub truthy : Option Json → Bool
truthy none = false
truthy (some null) = false
truthy (some (bool b)) = b
truthy (some (num n)) = not (n == 0)
truthy (some (str [])) = false
truthy (some (str (_ ∷ _))) = true
truthy (some (arr _)) = true
truthy (some (obj _)) = true

-- `list === undefined && (p.epc || p.idHex || p.tag_id)`: one read at the root.
unfoldable pub is_single_read : Option Json → Fields → Bool
unfolding truthy get
is_single_read none p = truthy (get "epc" p) || truthy (get "idHex" p) || truthy (get "tag_id" p)
is_single_read (some _) p = false

-- The value of `list` for an object at the root.
unfoldable pub list_in : Fields → Option Json
unfolding is_single_read
list_in p =
    let list = coalesce (get "data" p) (coalesce (get "tag_reads" p) (get "events" p)) in
    if is_single_read list p then some (arr (cons (obj p) nil)) else list

-- `{ ...e.data, timestamp: e.data.timestamp ?? e.timestamp }`; the last field wins.
abbrev put_timestamp : Option Json → Fields → Fields
put_timestamp none fs = without "timestamp" fs
put_timestamp (some v) fs = field "timestamp" v fs

unfoldable pub flatten_read : Json → Fields
unfolding get without
flatten_read (obj e) = elim (get "data" e) [
  | some (obj d) ↦ put_timestamp (coalesce (get "timestamp" d) (get "timestamp" e)) d
  | _ ↦ e
]
flatten_read _ = end

-- An array with no more reads than a batch may have.
unfoldable pub bounded_reads : Option Json → Extracted
unfolding items flatten_read
bounded_reads (some (arr xs)) =
    if ltb max_batch_reads (length (items xs))
    then refused PayloadError.batch_too_large
    else reads (map flatten_read (items xs))
bounded_reads _ = refused PayloadError.malformed_payload

unfoldable pub root_list : Json → Option Json
unfolding list_in
root_list (arr xs) = some (arr xs)
root_list (obj p) = list_in p
root_list _ = none

unfoldable pub extract_raw_reads : Json → Extracted
unfolding root_list bounded_reads sanitize_payload
extract_raw_reads payload =
    if sanitize_payload payload
    then bounded_reads (root_list payload)
    else refused PayloadError.malformed_payload
