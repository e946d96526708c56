-- ===== src/Sync/Payloads.antt =====
-- The payloads of a batch whose client sessions are told apart by the database.
use offline_qr_school_attend.Common.{◌≡◌, false, List, [], ◌∷◌, All}
use offline_qr_school_attend.Sync.Types.{SyncSessionPayload}
use offline_qr_school_attend.Sync.Sessions.{same_uuid}

abbrev pub Differs : SyncSessionPayload → SyncSessionPayload → Type 0
Differs p q = same_uuid q.client_session_id p.client_session_id ≡ false

-- No two identifiers are equal up to their case.
abbrev pub HasDistinctIds : List SyncSessionPayload → Type 0
HasDistinctIds [] = Unit
HasDistinctIds (p ∷ ps) = All (Differs p) ps × HasDistinctIds ps
