-- ===== src/Ingest/Freshness.antt =====
-- src/services/rfid/readFreshness.ts. `Intl.DateTimeFormat` is a parameter: the calendar date of an
-- instant in the school's time zone.
pub mod Window
use offline_qr_school_attend.Common.{ℕ, ◌+◌, ◌*◌, Option, none, some, ltb, ◌==◌, not, if◌then◌else◌}
use offline_qr_school_attend.Ingest.Types.{Freshness}

abbrev pub max_future_skew_ms : ℕ
max_future_skew_ms = 2 * 60_000

abbrev pub late_review_ms : ℕ
late_review_ms = 15 * 60_000

-- The difference `readTs - now` has a sign; each test on it is written with a sum.
unfoldable pub classify_read_time : (ℕ → ℕ) → Option ℕ → ℕ → Freshness
classify_read_time local_date none now = Freshness.missing_timestamp
classify_read_time local_date (some read_ts) now =
    if ltb (now + max_future_skew_ms) read_ts
    then Freshness.future_skew
    else if not (local_date read_ts == local_date now)
    then Freshness.wrong_school_day
    else if ltb (read_ts + late_review_ms) now
    then Freshness.late_buffered
    else Freshness.fresh
