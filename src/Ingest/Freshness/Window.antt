-- ===== src/Ingest/Freshness/Window.antt =====
-- The window of instants that each freshness stands for.
use offline_qr_school_attend.Common.{ℕ, ◌+◌, ◌≤◌, ◌<◌, ◌≡◌, ◌≢◌, ◌↔◌, Option, none, some, arith}
use offline_qr_school_attend.Ingest.Types.{Freshness}
use offline_qr_school_attend.Ingest.Freshness.{classify_read_time}

-- Two minutes ahead of the server and fifteen behind it, on the school's calendar day.
abbrev pub Means : (ℕ → ℕ) → Option ℕ → ℕ → Freshness → Type 0
Means local_date none now Freshness.missing_timestamp = Unit
Means local_date none now _ = ⊥
Means local_date (some ts) now Freshness.missing_timestamp = ⊥
Means local_date (some ts) now Freshness.future_skew = now + 120_000 < ts
Means local_date (some ts) now Freshness.wrong_school_day =
    (ts ≤ now + 120_000) × (local_date ts ≢ local_date now)
Means local_date (some ts) now Freshness.late_buffered =
    (ts ≤ now + 120_000) × (local_date ts ≡ local_date now) × (ts + 900_000 < now)
Means local_date (some ts) now Freshness.fresh =
    (ts ≤ now + 120_000) × (local_date ts ≡ local_date now) × (now ≤ ts + 900_000)

-- A read is given a freshness exactly when its timestamp lies in the window of that freshness.
pub classify_read_time_iff :
    (local_date : ℕ → ℕ) (read_ts : Option ℕ) (now : ℕ) (f : Freshness)
    → (classify_read_time local_date read_ts now ≡ f) ↔ Means local_date read_ts now f
unfolding classify_read_time
classify_read_time_iff local_date none now Freshness.missing_timestamp = ground arith
classify_read_time_iff local_date none now Freshness.fresh = ground arith
classify_read_time_iff local_date none now Freshness.future_skew = ground arith
classify_read_time_iff local_date none now Freshness.wrong_school_day = ground arith
classify_read_time_iff local_date none now Freshness.late_buffered = ground arith
classify_read_time_iff local_date (some ts) now Freshness.missing_timestamp = ground arith
classify_read_time_iff local_date (some ts) now Freshness.fresh = ground arith
classify_read_time_iff local_date (some ts) now Freshness.future_skew = ground arith
classify_read_time_iff local_date (some ts) now Freshness.wrong_school_day = ground arith
classify_read_time_iff local_date (some ts) now Freshness.late_buffered = ground arith
