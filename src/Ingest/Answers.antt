-- ===== src/Ingest/Answers.antt =====
-- Every batch whose times can be printed is answered in full, unless the log of scans is refused.
use offline_qr_school_attend.Common.{ℕ, ◌+◌, List}
use offline_qr_school_attend.Ingest.Batch.{Counts}

total : Counts → ℕ
total c = c.accepted_count + c.duplicate_count + c.rejected_count
