-- ===== src/Notifications/Redaction.antt =====
-- What src/services/sms/smsUtils.ts leaves of a phone number in the logs.
use offline_qr_school_attend.Common.{
  take, drop, ℕ, ◌-◌, ◌≤◌, ◌<◌, ◌≡◌, refl, ap, ◌∙◌, Bool, List, [], ◌∷◌, ◌++◌, length, ◌==◌, ltb,
  if◌then◌else◌, arith, inl, inr, Bool-cases,
}
use offline_qr_school_attend.Ingest.Epc.{trim}
use offline_qr_school_attend.Notifications.Sms.{
  kept_prefix, redact_phone_number, stars, at_least_one,
}

abbrev plus : List ℕ
plus = b'+' ∷ []

-- Two numbers that agree in length, in the first two and the last four characters, and behind a plus
-- in the first four, or in the first five where they are longer than twelve.
pub record LooksLike (s t : List ℕ) : Type 0 where
  pub same_length : length s ≡ length t
  pub same_start : take 2 s ≡ take 2 t
  pub same_country : take 1 s ≡ plus → length s ≤ 12 → take 4 s ≡ take 4 t
  pub same_long_country : take 1 s ≡ plus → 12 < length s → take 5 s ≡ take 5 t
  pub same_end : drop (length s - 4) s ≡ drop (length t - 4) t

with_ends : ℕ → List ℕ → List ℕ → List ℕ
with_ends n prefix suffix =
    if ltb n 7
    then stars 3
    else prefix ++ (stars (at_least_one (n - length prefix - length suffix)) ++ suffix)

same_head : (c d : ℕ) (s t : List ℕ) → take 2 (c ∷ s) ≡ take 2 (d ∷ t) → c ≡ d
same_head c d s t h = cc

long_prefix : Bool → ℕ
long_prefix b = if b then 5 else 4

plus_prefix : Bool → ℕ → ℕ
plus_prefix b n = if b then long_prefix (ltb 12 n) else 2

kept_prefix-same :
    (s t : List ℕ) → length s ≡ length t → take 2 s ≡ take 2 t → kept_prefix s ≡ kept_prefix t
unfolding plus_prefix long_prefix
kept_prefix-same [] [] n h = refl
kept_prefix-same [] (d ∷ t) n h = absurd (cc)
kept_prefix-same (c ∷ s) [] n h = absurd (cc)
kept_prefix-same (c ∷ s) (d ∷ t) n h =
    ap (λ x. plus_prefix (x == b'+') (length (c ∷ s))) (same_head c d s t h)
    ∙ ap (plus_prefix (d == b'+')) n

take-kept_prefix : (s t : List ℕ) → LooksLike s t → take (kept_prefix s) s ≡ take (kept_prefix s) t
take-kept_prefix [] t h = h.same_start
take-kept_prefix (c ∷ s) t h = elim (Bool-cases (c == b'+')) [
  | inl with_plus ↦
      let starts : take 1 (c ∷ s) ≡ plus = ground (arith, with_plus) in
      elim (Bool-cases (ltb 12 (length (c ∷ s)))) [
        | inl long ↦ rw (with_plus, long) (h.same_long_country starts (ground (arith, long)))
        | inr short ↦ rw (with_plus, short) (h.same_country starts (ground (arith, short)))
      ]
  | inr without ↦ rw without h.same_start
]

-- The log shows of a phone number its length, its first two characters, or with a plus its first
-- four, or five where it is longer than twelve, and its last four: numbers that agree in these
-- look the same.
pub redact_phone_number-hides :
    (phone other : List ℕ)
    → LooksLike (trim phone) (trim other)
    → redact_phone_number phone ≡ redact_phone_number other
unfolding redact_phone_number with_ends
redact_phone_number-hides phone other h =
    let s = trim phone in
    let t = trim other in
    let same : take (kept_prefix s) s ≡ take (kept_prefix t) t =
      take-kept_prefix s t h
      ∙ ap (λ k. take k t) (kept_prefix-same s t h.same_length h.same_start) in
    ap (λ n. with_ends n (take (kept_prefix s) s) (drop (length s - 4) s)) h.same_length
    ∙ ap (λ p. with_ends (length t) p (drop (length s - 4) s)) same
    ∙ ap (with_ends (length t) (take (kept_prefix t) t)) h.same_end
