-- ===== src/Sync/Reconciles.antt =====
-- What a reconciliation of a session that returns has done: the session is known afterwards.
use mathlib.Core.Path.{subst}
use offline_qr_school_attend.Common.{
  find?-append_none, ℕ, ◌≡◌, refl, ◌∙◌, true, not, none, [], ◌∷◌, map, arith, inl, inr,
  Option-cases,
}
use offline_qr_school_attend.Common.Result.{returns, require-returns}
use offline_qr_school_attend.Directory.{Directory, UserRole}
use offline_qr_school_attend.Attendance.Sessions.{
  open_session, has_repeats, enrolled_student, active_enrollments,
}
use offline_qr_school_attend.Sync.Types.{SyncSessionPayload, ClientSession, SyncDb}
use offline_qr_school_attend.Sync.Sessions.{
  is_uuid, is_client_session, params_of_payload, Reconciled, insert_synced_session, create_session,
  by_natural_key, locate, reconcile_session,
}
use offline_qr_school_attend.Sync.Known.{
  same_uuid_refl, as_reconciled, has_access, client_row, key_row, Known, Grows, Grows-refl,
}

pub reconciled-injective : (r s : Reconciled) → as_reconciled r ≡ as_reconciled s → r ≡ s
reconciled-injective r s h = cc

module _ (dir : Directory) (school actor : ℕ) (role : UserRole) where
  -- What a reconciliation that returns has done.
  pub record Reconciles (p : SyncSessionPayload) (db : SyncDb) (r : Reconciled) : Type 0 where
    pub known : Known dir school actor role p r.session r.db
    pub grows : Grows dir school actor role p db r.db

  found-Reconciles :
      (p : SyncSessionPayload) (n : ℕ) (db : SyncDb) (r : Reconciled)
      → Known dir school actor role p n db
      → as_reconciled (record { db = db; session = n }) ≡ returns r
      → Reconciles p db r
  found-Reconciles p n db r k h =
      subst (Reconciles p db) (reconciled-injective _ _ h)
        (record { known = k; grows = Grows-refl dir school actor role p db })

  create_session-Reconciles :
      (now : ℕ) (p : SyncSessionPayload) (db : SyncDb) (r : Reconciled)
      → is_uuid p.client_session_id ≡ true
      → has_access dir school actor role p ≡ true
      → client_row dir school actor role p db ≡ none
      → create_session dir school actor role now p db ≡ returns r
      → Reconciles p db r
  unfolding insert_synced_session
  create_session-Reconciles now p db r named access free h =
      let (distinct, h1) =
        require-returns
          (not
            (has_repeats (map enrolled_student (active_enrollments dir school p.class_section_id))))
          _ _ _ h in
      let row : ClientSession = record {
        school_id = school;
        client_session_id = p.client_session_id;
        session_id = db.attendance.next_id;
      } in
      subst (Reconciles p db) (reconciled-injective _ _ h1) (record {
        known = record {
          well_named = named;
          accessible = access;
          located = inl (
            row,
            find?-append_none (is_client_session school p.client_session_id) db.client_sessions
                  (row ∷ []) free
                ∙ ground (arith, same_uuid_refl p.client_session_id),
            refl,
          );
        };
        grows = record {
          rows = row ∷ [];
          new_rows = refl;
          of_payload = λ client other. ground (arith, other);
          sessions =
              open_session (params_of_payload school actor role p) db.attendance.next_id ∷ [];
          new_sessions = refl;
          same_events = refl;
        };
      })

  by_natural_key-Reconciles :
      (now : ℕ) (p : SyncSessionPayload) (db : SyncDb) (r : Reconciled)
      → is_uuid p.client_session_id ≡ true
      → has_access dir school actor role p ≡ true
      → client_row dir school actor role p db ≡ none
      → by_natural_key dir school actor role now p db (key_row dir school actor role p db)
        ≡ returns r
      → Reconciles p db r
  by_natural_key-Reconciles now p db r named access free h =
      elim (Option-cases (key_row dir school actor role p db)) [
        | inl no_key ↦
            create_session-Reconciles now p db r named access free
              (subst (λ o. by_natural_key dir school actor role now p db o ≡ returns r) no_key h)
        | inr (s, key) ↦
            found-Reconciles p s.id db r
              (record {
                well_named = named;
                accessible = access;
                located = inr (s, free, key, refl);
              })
              (subst (λ o. by_natural_key dir school actor role now p db o ≡ returns r) key h)
      ]

  locate-Reconciles :
      (now : ℕ) (p : SyncSessionPayload) (db : SyncDb) (r : Reconciled)
      → is_uuid p.client_session_id ≡ true
      → has_access dir school actor role p ≡ true
      → locate dir school actor role now p db (client_row dir school actor role p db) ≡ returns r
      → Reconciles p db r
  locate-Reconciles now p db r named access h =
      elim (Option-cases (client_row dir school actor role p db)) [
        | inl free ↦
            by_natural_key-Reconciles now p db r named access free
              (subst (λ o. locate dir school actor role now p db o ≡ returns r) free h)
        | inr (c, row) ↦
            found-Reconciles p c.session_id db r
              (record { well_named = named; accessible = access; located = inl (c, row, refl) })
              (subst (λ o. locate dir school actor role now p db o ≡ returns r) row h)
      ]

  pub reconcile_session-Reconciles :
      (now : ℕ) (p : SyncSessionPayload) (db : SyncDb) (r : Reconciled)
      → reconcile_session dir school actor role now p db ≡ returns r
      → Reconciles p db r
  unfolding reconcile_session
  reconcile_session-Reconciles now p db r h =
      let (named, h1) = require-returns (is_uuid p.client_session_id) _ _ _ h in
      let (access, h2) = require-returns (has_access dir school actor role p) _ _ _ h1 in
      locate-Reconciles now p db r named access h2
