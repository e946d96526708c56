-- ===== src/Sync/Mapped.antt =====
-- The sessions of a batch are reconciled once: a second time they are found, each as before.
use mathlib.Core.Path.{subst}
use offline_qr_school_attend.Common.{ℕ, ◌≡◌, refl, sym, ap, ◌∙◌, List, [], ◌∷◌, All, inl, inr}
use offline_qr_school_attend.Common.Result.{Result, throws, returns, bind-returns, Result-cases}
use offline_qr_school_attend.Directory.{Directory, UserRole}
use offline_qr_school_attend.Sync.Types.{SyncSessionPayload, SyncError, ServerMapping, SyncDb}
use offline_qr_school_attend.Sync.Sessions.{
  Reconciled, reconcile_session, Reconciliation, add_mapping, reconcile_sessions,
}
use offline_qr_school_attend.Sync.Known.{Known, Known-again, Known-Grows, Known-same}
use offline_qr_school_attend.Sync.Reconciles.{reconcile_session-Reconciles}
use offline_qr_school_attend.Sync.Payloads.{Differs, HasDistinctIds}

-- What a later call reads is the same: the sessions, and the client sessions that name them.
pub record SameSessions (a b : SyncDb) : Type 0 where
  pub same_clients : b.client_sessions ≡ a.client_sessions
  pub same_sessions : b.attendance.sessions ≡ a.attendance.sessions

module _ (dir : Directory) (school actor : ℕ) (role : UserRole) where
  abbrev pub run : ℕ → List SyncSessionPayload → SyncDb → Reconciliation
  run now ps db = reconcile_sessions dir school actor role now ps db

  abbrev pub run_next :
      ℕ
      → List SyncSessionPayload
      → SyncSessionPayload
      → SyncDb
      → Result SyncError Reconciled
      → Reconciliation
  run_next now ps p db m = elim m [
    | throws e ↦ record { db = db; mappings = throws e }
    | returns r ↦ add_mapping p.client_session_id r.session (run now ps r.db)
  ]

  run-first :
      (now : ℕ) (p : SyncSessionPayload) (ps : List SyncSessionPayload) (db : SyncDb)
      → run now (p ∷ ps) db
        ≡ run_next now ps p db (reconcile_session dir school actor role now p db)
  unfolding reconcile_sessions
  run-first now p ps db = refl

  run-nil : (now : ℕ) (db : SyncDb) → run now [] db ≡ record { db = db; mappings = returns [] }
  unfolding reconcile_sessions
  run-nil now db = refl

  run-Known :
      (now : ℕ) (q : SyncSessionPayload) (n : ℕ) (ps : List SyncSessionPayload) (db : SyncDb)
      → All (Differs q) ps
      → Known dir school actor role q n db
      → Known dir school actor role q n (run now ps db).db
  run-Known now q n [] db d k =
      subst (λ (r : Reconciliation). Known dir school actor role q n r.db) (sym (run-nil now db)) k
  run-Known now q n (p ∷ ps) db (d, ds) k =
      let m = reconcile_session dir school actor role now p db in
      subst (λ (r : Reconciliation). Known dir school actor role q n r.db)
        (sym (run-first now p ps db))
        (elim (Result-cases m) [
          | inl (e, thrown) ↦
              subst (λ m. Known dir school actor role q n (run_next now ps p db m).db) (sym thrown)
                k
          | inr (r, returned) ↦
              subst (λ m. Known dir school actor role q n (run_next now ps p db m).db)
                (sym returned)
                (run-Known now q n ps r.db ds (
                  Known-Grows dir school actor role q p n db r.db d
                    (reconcile_session-Reconciles dir school actor role now p db r returned).grows
                    k))
        ])

  run_next-again :
      (later : ℕ) (ps : List SyncSessionPayload) (p : SyncSessionPayload) (n : ℕ)
      (ms : List ServerMapping) (b : SyncDb)
      → reconcile_session dir school actor role later p b ≡ returns (record { db = b; session = n })
      → run later ps b ≡ record { db = b; mappings = returns ms }
      → run later (p ∷ ps) b ≡ record {
        db = b;
        mappings =
            returns
              (record { client_session_id = p.client_session_id; server_session_id = n } ∷ ms);
      }
  run_next-again later ps p n ms b found rest =
      run-first later p ps b
      ∙ ap (run_next later ps p b) found
      ∙ ap (add_mapping p.client_session_id n) rest

  abbrev FoundAgain : ℕ → ℕ → List SyncSessionPayload → SyncDb → List ServerMapping → Type 0
  FoundAgain now later ps db ms =
      (b : SyncDb)
      → SameSessions (run now ps db).db b
      → run later ps b ≡ record { db = b; mappings = returns ms }

  abbrev as_mappings : List ServerMapping → Result SyncError (List ServerMapping)
  as_mappings ms = returns ms

  returned_mappings-injective : (x y : List ServerMapping) → as_mappings x ≡ as_mappings y → x ≡ y
  returned_mappings-injective x y h = cc

  -- Where the sessions of a batch were reconciled, a second time answers the same and writes nothing.
  pub reconcile_sessions-again :
      (now later : ℕ) (ps : List SyncSessionPayload) (db : SyncDb) (ms : List ServerMapping)
      → HasDistinctIds ps
      → (run now ps db).mappings ≡ returns ms
      → FoundAgain now later ps db ms
  reconcile_sessions-again now later [] db ms d h b same =
      let e =
        returned_mappings-injective [] ms
          (sym (ap (λ (r : Reconciliation). r.mappings) (run-nil now db)) ∙ h) in
      run-nil later b ∙ ap (λ ms. record { db = b; mappings = returns ms }) e
  reconcile_sessions-again now later (p ∷ ps) db ms (d, ds) h b same =
      let m = reconcile_session dir school actor role now p db in
      let h1 : (run_next now ps p db m).mappings ≡ returns ms =
        sym (ap (λ (r : Reconciliation). r.mappings) (run-first now p ps db)) ∙ h in
      elim (Result-cases m) [
        | inl (e, thrown) ↦
            absurd (cc (subst (λ m. (run_next now ps p db m).mappings ≡ returns ms) thrown h1))
        | inr (r, returned) ↦
            let h2 : (run_next now ps p db (returns r)).mappings ≡ returns ms =
              subst (λ m. (run_next now ps p db m).mappings ≡ returns ms) returned h1 in
            let (rest, got, e) = bind-returns (run now ps r.db).mappings _ _ h2 in
            let same_end : (run now (p ∷ ps) db).db ≡ (run now ps r.db).db =
              ap (λ (r : Reconciliation). r.db)
                (run-first now p ps db ∙ ap (run_next now ps p db) returned) in
            let same_rest : SameSessions (run now ps r.db).db b =
              subst (λ x. SameSessions x b) same_end same in
            let known =
              Known-same dir school actor role p r.session (run now ps r.db).db b
                same_rest.same_clients same_rest.same_sessions
                (run-Known now p r.session ps r.db d
                  (reconcile_session-Reconciles dir school actor role now p db r returned).known) in
            run_next-again later ps p r.session rest b
              (Known-again dir school actor role later p r.session b known)
              (reconcile_sessions-again now later ps r.db rest ds got b same_rest)
            ∙ ap (λ ms. record { db = b; mappings = returns ms })
                (returned_mappings-injective _ ms e)
      ]
