-- ===== src/Notifications/Segments.antt =====
-- What decides in src/services/sms/smsUtils.ts if a message counts as Unicode.
use offline_qr_school_attend.Common.{
  ℕ, ◌≡◌, refl, false, not, List, [], ◌∷◌, anyb, ◌==◌, arith, inl, inr, Bool-cases,
}
use offline_qr_school_attend.Notifications.Sms.{estimate_sms_segments, is_gsm_char, ends_with_euro}

no_euro : (s : List ℕ) → anyb (λ c. c == 8364) s ≡ false → ends_with_euro s ≡ false
no_euro [] h = refl
no_euro (c ∷ s) h = ground (arith, no_euro s)

-- Where a message holds no euro sign, its first character alone decides if it counts as Unicode,
-- whatever characters come after.
pub estimate_sms_segments-first :
    (c : ℕ) (message : List ℕ)
    → anyb (λ d. d == 8364) (c ∷ message) ≡ false
    → (estimate_sms_segments (c ∷ message)).is_unicode ≡ not (is_gsm_char c)
unfolding estimate_sms_segments
estimate_sms_segments-first c message h =
    rw (no_euro (c ∷ message) h)
      (elim (Bool-cases (is_gsm_char c)) [ inl gsm ↦ rw gsm refl | inr other ↦ rw other refl ])
