-- ===== src/Ingest/Epc/Canonical.antt =====
-- `canonicalizeEpc` gives canonical texts, and leaves those as they are.
use mathlib.Core.List.{reverse, reverse-reverse, reverse_aux}
use offline_qr_school_attend.Common.{
  ℕ, ◌%◌, ◌≤◌, ◌≡◌, refl, true, false, List, [], ◌∷◌, length, arith, ◌⊎◌, inl, inr, All, ◌↔◌,
  Bool-cases,
}
use offline_qr_school_attend.Ingest.Epc.{
  is_space, trim_start, trim, strip_prefix, is_hex, to_upper, hex_digits, check_length, ok,
  canonicalize_epc,
}

-- A digit 0-9 or a letter A-F.
abbrev pub IsUpperHex : ℕ → Type 0
IsUpperHex c = ((b'0' ≤ c) × (c ≤ b'9')) ⊎ ((b'A' ≤ c) × (c ≤ b'F'))

-- Upper-case hexadecimal digits, 8 to 32 bytes of them.
pub record IsCanonical (s : List ℕ) : Type 0 where
  pub digits : All IsUpperHex s
  pub at_least : 16 ≤ length s
  pub at_most : length s ≤ 64
  pub whole_bytes : length s % 2 ≡ 0

to_upper-IsUpperHex : (c : ℕ) → is_hex c ≡ true → IsUpperHex (to_upper c)
unfolding is_hex to_upper
to_upper-IsUpperHex c h = ground arith

hex_digits-IsUpperHex : (s : List ℕ) → All IsUpperHex (hex_digits s)
unfolding hex_digits
hex_digits-IsUpperHex [] = tt
hex_digits-IsUpperHex (c ∷ s) = elim (Bool-cases (is_hex c)) [
  | inl h ↦ rw h (to_upper-IsUpperHex c h, hex_digits-IsUpperHex s)
  | inr h ↦ rw h (hex_digits-IsUpperHex s)
]

check_length-IsCanonical :
    (s : List ℕ) {t : List ℕ} → All IsUpperHex s → check_length s ≡ ok t → IsCanonical t
unfolding check_length
check_length-IsCanonical s {t} h e =
    let same : s ≡ t = ground arith in
    record {
      digits = rw same at h;
      at_least = ground arith;
      at_most = ground arith;
      whole_bytes = ground arith;
    }

IsUpperHex-not_space : (c : ℕ) → IsUpperHex c → is_space c ≡ false
unfolding is_space
IsUpperHex-not_space c h = ground arith

trim_start_of_hex : (s : List ℕ) → All IsUpperHex s → trim_start s ≡ s
unfolding trim_start
trim_start_of_hex [] h = refl
trim_start_of_hex (c ∷ s) (h, _) = rw (IsUpperHex-not_space c h)

All-reverse_aux :
    (s t : List ℕ) → All IsUpperHex s → All IsUpperHex t → All IsUpperHex (reverse_aux s t)
All-reverse_aux [] t h k = k
All-reverse_aux (c ∷ s) t (p, h) k = All-reverse_aux s (c ∷ t) h (p, k)

trim_of_hex : (s : List ℕ) → All IsUpperHex s → trim s ≡ s
unfolding trim
trim_of_hex s h = rw (
  trim_start_of_hex s h,
  trim_start_of_hex (reverse s) (All-reverse_aux s [] h tt),
  reverse-reverse,
)

strip_prefix_of_hex : (s : List ℕ) → All IsUpperHex s → strip_prefix s ≡ s
unfolding strip_prefix
strip_prefix_of_hex [] h = refl
strip_prefix_of_hex (c ∷ []) h = refl
strip_prefix_of_hex (c ∷ d ∷ s) (_, (h, _)) = ground arith

hex_digits_of_hex : (s : List ℕ) → All IsUpperHex s → hex_digits s ≡ s
unfolding hex_digits
hex_digits_of_hex [] h = refl
hex_digits_of_hex (c ∷ s) (p, h) = ground (arith, hex_digits_of_hex s h)

canonicalize_epc_of_IsCanonical : (s : List ℕ) → IsCanonical s → canonicalize_epc s ≡ ok s
unfolding canonicalize_epc check_length
canonicalize_epc_of_IsCanonical [] h = absurd (omega (arith, h.at_least))
canonicalize_epc_of_IsCanonical (c ∷ s) h =
    rw
      (
        trim_of_hex (c ∷ s) h.digits,
        strip_prefix_of_hex (c ∷ s) h.digits,
        hex_digits_of_hex (c ∷ s) h.digits,
      )
      (ground (arith, h.at_least, h.at_most, h.whole_bytes))

canonicalize_epc-IsCanonical : (s : List ℕ) {t : List ℕ} → canonicalize_epc s ≡ ok t → IsCanonical t
unfolding canonicalize_epc
canonicalize_epc-IsCanonical [] e = cc
canonicalize_epc-IsCanonical (c ∷ s) e =
    let s' = hex_digits (strip_prefix (trim (c ∷ s))) in
    check_length-IsCanonical s' (hex_digits-IsUpperHex (strip_prefix (trim (c ∷ s)))) e

-- Every text that the function returns is canonical, and a text comes back as it is exactly when it
-- is canonical: making canonical a second time changes nothing and never fails.
pub canonicalize_epc_iff :
    (s t : List ℕ)
    → canonicalize_epc s ≡ ok t
    → IsCanonical t × ((canonicalize_epc s ≡ ok s) ↔ IsCanonical s) × (canonicalize_epc t ≡ ok t)
canonicalize_epc_iff s t e =
    let canonical : IsCanonical t = canonicalize_epc-IsCanonical s e in
    (
      canonical,
      (canonicalize_epc-IsCanonical s, canonicalize_epc_of_IsCanonical s),
      canonicalize_epc_of_IsCanonical t canonical,
    )
