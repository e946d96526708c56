-- ===== src/Notifications/SmsTests.antt =====
-- Messages, phone numbers and consents at concrete values.
use offline_qr_school_attend.Common.{ℕ, ◌≡◌, refl, true, false, List, [], ◌∷◌, length, filterb}
use offline_qr_school_attend.Notifications.Privacy.{
  ConsentKey, ConsentPurpose, GuardianConsent, has_consent, record_consent, withdraw_consent,
}
use offline_qr_school_attend.Notifications.Withdrawn.{is_other, has_consent-withdraw_consent}
use offline_qr_school_attend.Notifications.Sms.{
  estimate_sms_segments, redact_phone_number, is_gsm_char,
}
use offline_qr_school_attend.Notifications.Segments.{estimate_sms_segments-first}
use offline_qr_school_attend.Ingest.Epc.{trim}
use offline_qr_school_attend.Notifications.Redaction.{redact_phone_number-hides}

-- A Latin letter before two Bengali ones.
abbrev mixed : List ℕ
mixed = b'A' ∷ 2438 ∷ 2439 ∷ []

mixed_counts_as_gsm : (estimate_sms_segments mixed).is_unicode ≡ false
unfolding estimate_sms_segments is_gsm_char
mixed_counts_as_gsm = refl

-- Two surrogate pairs, and so two characters.
pair_count : (estimate_sms_segments (55357 ∷ 56832 ∷ 55357 ∷ 56832 ∷ [])).char_count ≡ 2
unfolding estimate_sms_segments
pair_count = refl

abbrev indian : List ℕ
indian =
    b'+' ∷ b'9' ∷ b'1' ∷ b'9' ∷ b'8' ∷ b'7' ∷ b'6' ∷ b'5' ∷ b'4' ∷ b'3' ∷ b'2' ∷ b'1' ∷ b'0' ∷ []

abbrev neighbour : List ℕ
neighbour =
    b'+' ∷ b'9' ∷ b'1' ∷ b'9' ∷ b'8' ∷ b'0' ∷ b'0' ∷ b'0' ∷ b'0' ∷ b'3' ∷ b'2' ∷ b'1' ∷ b'0' ∷ []

redacted_number :
    redact_phone_number indian
    ≡ b'+' ∷ b'9' ∷ b'1' ∷ b'9' ∷ b'8' ∷ b'*' ∷ b'*' ∷ b'*' ∷ b'*' ∷ b'3' ∷ b'2' ∷ b'1' ∷ b'0' ∷ []
unfolding redact_phone_number trim
redacted_number = refl

-- Of a number of seven characters with a plus every digit is shown.
short_number :
    redact_phone_number (b'+' ∷ b'1' ∷ b'2' ∷ b'3' ∷ b'4' ∷ b'5' ∷ b'6' ∷ [])
    ≡ b'+' ∷ b'1' ∷ b'2' ∷ b'3' ∷ b'*' ∷ b'3' ∷ b'4' ∷ b'5' ∷ b'6' ∷ []
unfolding redact_phone_number trim
short_number = refl

estimate_sms_segments-first_example : (estimate_sms_segments mixed).is_unicode ≡ false
unfolding is_gsm_char
estimate_sms_segments-first_example = estimate_sms_segments-first b'A' (2438 ∷ 2439 ∷ []) refl

redact_phone_number-hides_example : redact_phone_number indian ≡ redact_phone_number neighbour
unfolding trim
redact_phone_number-hides_example = redact_phone_number-hides indian neighbour (record {
  same_length = refl;
  same_start = refl;
  same_country = λ starts short. refl;
  same_long_country = λ starts long. refl;
  same_end = refl;
})

abbrev message_key : ConsentKey
message_key = record { school_id = 1; student_id = 22; purpose = ConsentPurpose.absence_sms }

abbrev consents : List GuardianConsent
unfolding record_consent
consents = record_consent message_key true 20 (record_consent message_key false 10 [])

granted_last : has_consent message_key consents ≡ true
unfolding has_consent record_consent consents
granted_last = refl

has_consent-withdraw_consent_example :
    let rows = withdraw_consent message_key 30 consents in
    (has_consent message_key rows ≡ false)
    × (length rows ≡ length consents)
    × (filterb (is_other message_key) rows ≡ filterb (is_other message_key) consents)
unfolding record_consent consents
has_consent-withdraw_consent_example = has_consent-withdraw_consent message_key 30 consents
