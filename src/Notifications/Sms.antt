-- ===== src/Notifications/Sms.antt =====
-- The SMS helpers of src/services/sms/smsUtils.ts: the segments of a message and the redaction of
-- a phone number. A text is a list of UTF-16 code units.
use offline_qr_school_attend.Common.{
  take, drop, ℕ, ◌+◌, ◌-◌, ◌/◌, Bool, true, false, ◌||◌, ◌&&◌, not, List, [], ◌∷◌, ◌++◌,
  if◌then◌else◌, ltb, leb, ◌==◌, length, replicate, elem,
}
use offline_qr_school_attend.Ingest.Epc.{trim}

abbrev pub is_letter_or_digit : ℕ → Bool
is_letter_or_digit c =
    (leb b'a' c && leb c b'z') || (leb b'A' c && leb c b'Z') || (leb b'0' c && leb c b'9')

-- The characters of the class in the regular expression, letters and digits left out.
abbrev pub gsm_symbols : List ℕ
gsm_symbols =
    10 ∷ 13 ∷ 32 ∷ 64 ∷ 163 ∷ 36 ∷ 165 ∷ 232 ∷ 233 ∷ 249 ∷ 236 ∷ 242 ∷ 199 ∷ 216 ∷ 248 ∷ 197 ∷ 229
    ∷ 916 ∷ 95 ∷ 934 ∷ 915 ∷ 923 ∷ 937 ∷ 928 ∷ 936 ∷ 931 ∷ 920 ∷ 926 ∷ 198 ∷ 230 ∷ 223 ∷ 201 ∷ 33
    ∷ 34 ∷ 35 ∷ 36 ∷ 37 ∷ 38 ∷ 39 ∷ 40 ∷ 41 ∷ 42 ∷ 43 ∷ 44 ∷ 45 ∷ 46 ∷ 47 ∷ 58 ∷ 59 ∷ 60 ∷ 61 ∷ 62
    ∷ 63 ∷ 94 ∷ 123 ∷ 125 ∷ 92 ∷ 91 ∷ 126 ∷ []

unfoldable pub is_gsm_char : ℕ → Bool
is_gsm_char c = is_letter_or_digit c || elem c gsm_symbols

abbrev pub all_brackets : List ℕ → Bool
all_brackets [] = true
all_brackets (c ∷ s) = c == b']' && all_brackets s

-- The second alternative of the regular expression, `€]*$`: the bracket that should have been in
-- the class closes it.
abbrev pub ends_with_euro : List ℕ → Bool
ends_with_euro [] = false
ends_with_euro (c ∷ s) = (c == 8364 && all_brackets s) || ends_with_euro s

-- The first alternative, `^[…]`, reads one character.
abbrev pub starts_with_gsm : List ℕ → Bool
starts_with_gsm [] = false
starts_with_gsm (c ∷ s) = is_gsm_char c

abbrev pub is_gsm : List ℕ → Bool
is_gsm message = starts_with_gsm message || ends_with_euro message

abbrev pub is_high_surrogate : ℕ → Bool
is_high_surrogate c = leb 55296 c && leb c 56319

abbrev pub is_low_surrogate : ℕ → Bool
is_low_surrogate c = leb 56320 c && leb c 57343

-- The code points of a text; the flag says that the unit before was a high surrogate.
abbrev pub code_points_after : Bool → List ℕ → ℕ
code_points_after high [] = 0
code_points_after high (c ∷ s) =
    (if high && is_low_surrogate c then 0 else 1) + code_points_after (is_high_surrogate c) s

-- `Array.from(message).length`
abbrev pub code_points : List ℕ → ℕ
code_points s = code_points_after false s

pub record SmsSegments : Type 0 where
  pub char_count : ℕ
  pub is_unicode : Bool
  pub segment_count : ℕ

-- `Math.ceil(count / size)`
abbrev pub ceil_div : ℕ → ℕ → ℕ
ceil_div count size = (count + (size - 1)) / size

abbrev pub segments_of : Bool → ℕ → ℕ
segments_of is_unicode count =
    if is_unicode
    then (if leb count 70 then 1 else ceil_div count 67)
    else (if leb count 160 then 1 else ceil_div count 153)

unfoldable pub estimate_sms_segments : List ℕ → SmsSegments
estimate_sms_segments [] = record { char_count = 0; is_unicode = false; segment_count = 0 }
estimate_sms_segments (c ∷ s) =
    let unicode = not (is_gsm (c ∷ s)) in
    let count = code_points (c ∷ s) in
    record { char_count = count; is_unicode = unicode; segment_count = segments_of unicode count }

abbrev pub stars : ℕ → List ℕ
stars n = replicate n b'*'

abbrev pub at_least_one : ℕ → ℕ
at_least_one n = if leb 1 n then n else 1

-- The first `kept` characters and the last four, with stars between.
abbrev pub keep_ends : ℕ → List ℕ → List ℕ
keep_ends kept t =
    let prefix = take kept t in
    let suffix = drop (length t - 4) t in
    prefix ++ (stars (at_least_one (length t - length prefix - length suffix)) ++ suffix)

-- The characters that stay at the start of a number.
abbrev pub kept_prefix : List ℕ → ℕ
kept_prefix [] = 2
kept_prefix (c ∷ s) = if c == b'+' then (if ltb 12 (length (c ∷ s)) then 5 else 4) else 2

unfoldable pub redact_phone_number : List ℕ → List ℕ
redact_phone_number phone =
    let t = trim phone in if ltb (length t) 7 then stars 3 else keep_ends (kept_prefix t) t
