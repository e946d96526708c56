-- ===== src/Sync/Known.antt =====
-- A session that was reconciled is found again: lookups that stay as they are while the tables grow.
use offline_qr_school_attend.Common.{
  append_nil, sym, find?-append_some, find?-append_none, ℕ, ◌≡◌, refl, ap, ◌∙◌, Bool, true, false,
  ◌||◌, Option, none, some, List, [], ◌∷◌, ◌++◌, anyb, find?, map, arith, inl, inr, ◌⊎◌,
}
use offline_qr_school_attend.Common.Result.{Result, returns, require_of_true}
use offline_qr_school_attend.Directory.{Directory, UserRole, is_admin}
use offline_qr_school_attend.Attendance.Access.{is_assignment}
use offline_qr_school_attend.Attendance.Sessions.{is_session_of}
use offline_qr_school_attend.Notifications.Absence.{same_text}
use offline_qr_school_attend.Store.{Session}
use offline_qr_school_attend.Sync.Types.{SyncSessionPayload, SyncError, ClientSession, SyncDb}
use offline_qr_school_attend.Sync.Sessions.{
  is_uuid, lower_case, same_uuid, is_client_session, params_of_payload, Reconciled, locate,
  reconcile_session,
}

same_text_refl : (s : List ℕ) → same_text s s ≡ true
same_text_refl [] = refl
same_text_refl (c ∷ s) = ground (arith, same_text_refl s)

pub same_uuid_refl : (s : List ℕ) → same_uuid s s ≡ true
same_uuid_refl s = same_text_refl (map lower_case s)

abbrev pub as_reconciled : Reconciled → Result SyncError Reconciled
as_reconciled r = returns r

module _ (dir : Directory) (school actor : ℕ) (role : UserRole) where
  abbrev pub has_access : SyncSessionPayload → Bool
  has_access p =
      is_admin role || anyb (is_assignment school p.class_section_id actor) dir.teacher_assignments

  abbrev pub client_row : SyncSessionPayload → SyncDb → Option ClientSession
  client_row p db = find? (is_client_session school p.client_session_id) db.client_sessions

  abbrev pub key_row : SyncSessionPayload → SyncDb → Option Session
  key_row p db =
      find? (is_session_of (params_of_payload school actor role p)) db.attendance.sessions

  -- The session that the payload is answered with is `n`.
  abbrev pub Located : SyncSessionPayload → ℕ → SyncDb → Type 0
  Located p n db =
      ((c : ClientSession) × (client_row p db ≡ some c) × (c.session_id ≡ n))
      ⊎ ((s : Session) × (client_row p db ≡ none) × (key_row p db ≡ some s) × (s.id ≡ n))

  pub record Known (p : SyncSessionPayload) (n : ℕ) (db : SyncDb) : Type 0 where
    pub well_named : is_uuid p.client_session_id ≡ true
    pub accessible : has_access p ≡ true
    pub located : Located p n db

  locate-again :
      (now : ℕ) (p : SyncSessionPayload) (n : ℕ) (db : SyncDb)
      → Located p n db
      → locate dir school actor role now p db (client_row p db)
        ≡ returns (record { db = db; session = n })
  locate-again now p n db (inl (c, row, same)) =
      rw row (ap (λ k. as_reconciled (record { db = db; session = k })) same)
  locate-again now p n db (inr (s, no_row, key, same)) =
      rw (no_row, key) (ap (λ k. as_reconciled (record { db = db; session = k })) same)

  -- A known session is found, and nothing is written.
  pub Known-again :
      (now : ℕ) (p : SyncSessionPayload) (n : ℕ) (db : SyncDb)
      → Known p n db
      → reconcile_session dir school actor role now p db ≡ returns (record { db = db; session = n })
  unfolding reconcile_session
  Known-again now p n db k =
      require_of_true (is_uuid p.client_session_id) _ _ k.well_named
      ∙ require_of_true (has_access p) _ _ k.accessible
      ∙ locate-again now p n db k.located

  -- A reconciliation appends at most the session of its payload.
  pub record Grows (p : SyncSessionPayload) (a b : SyncDb) : Type 0 where
    pub rows : List ClientSession
    pub new_rows : b.client_sessions ≡ a.client_sessions ++ rows
    pub of_payload :
        (client : List ℕ)
        → same_uuid p.client_session_id client ≡ false
        → find? (is_client_session school client) rows ≡ none
    pub sessions : List Session
    pub new_sessions : b.attendance.sessions ≡ a.attendance.sessions ++ sessions
    pub same_events : b.attendance.events ≡ a.attendance.events

  pub Grows-refl : (p : SyncSessionPayload) (a : SyncDb) → Grows p a a
  Grows-refl p a = record {
    rows = [];
    new_rows = sym (append_nil a.client_sessions);
    of_payload = λ client h. refl;
    sessions = [];
    new_sessions = sym (append_nil a.attendance.sessions);
    same_events = refl;
  }

  Located-Grows :
      (p q : SyncSessionPayload) (n : ℕ) (a b : SyncDb)
      → same_uuid q.client_session_id p.client_session_id ≡ false
      → Grows q a b
      → Located p n a
      → Located p n b
  Located-Grows p q n a b other g (inl (c, row, same)) = inl (
    c,
    ap (find? (is_client_session school p.client_session_id)) g.new_rows
        ∙ find?-append_some (is_client_session school p.client_session_id) a.client_sessions g.rows
            c row,
    same,
  )
  Located-Grows p q n a b other g (inr (s, free, key, same)) = inr (
    s,
    ap (find? (is_client_session school p.client_session_id)) g.new_rows
        ∙ find?-append_none (is_client_session school p.client_session_id) a.client_sessions g.rows
            free
        ∙ g.of_payload p.client_session_id other,
    ap (find? (is_session_of (params_of_payload school actor role p))) g.new_sessions
        ∙ find?-append_some (is_session_of (params_of_payload school actor role p))
            a.attendance.sessions g.sessions s key,
    same,
  )

  -- The payload of another client session leaves it known.
  pub Known-Grows :
      (p q : SyncSessionPayload) (n : ℕ) (a b : SyncDb)
      → same_uuid q.client_session_id p.client_session_id ≡ false
      → Grows q a b
      → Known p n a
      → Known p n b
  Known-Grows p q n a b other g k = record {
    well_named = k.well_named;
    accessible = k.accessible;
    located = Located-Grows p q n a b other g k.located;
  }

  Located-same :
      (p : SyncSessionPayload) (n : ℕ) (a b : SyncDb)
      → b.client_sessions ≡ a.client_sessions
      → b.attendance.sessions ≡ a.attendance.sessions
      → Located p n a
      → Located p n b
  Located-same p n a b hc hs (inl (c, row, same)) =
      inl (c, ap (find? (is_client_session school p.client_session_id)) hc ∙ row, same)
  Located-same p n a b hc hs (inr (s, free, key, same)) = inr (
    s,
    ap (find? (is_client_session school p.client_session_id)) hc ∙ free,
    ap (find? (is_session_of (params_of_payload school actor role p))) hs ∙ key,
    same,
  )

  pub Known-same :
      (p : SyncSessionPayload) (n : ℕ) (a b : SyncDb)
      → b.client_sessions ≡ a.client_sessions
      → b.attendance.sessions ≡ a.attendance.sessions
      → Known p n a
      → Known p n b
  Known-same p n a b hc hs k = record {
    well_named = k.well_named;
    accessible = k.accessible;
    located = Located-same p n a b hc hs k.located;
  }
