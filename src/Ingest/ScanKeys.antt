-- ===== src/Ingest/ScanKeys.antt =====
-- The keys in the log of scan events: no two are the same, and none is lost.
use mathlib.Core.Path.{subst}
use offline_qr_school_attend.Common.{
  ℕ, ◌≡◌, refl, Bool, true, false, Option, none, some, List, [], ◌∷◌, ◌++◌, arith, anyb, All,
  Bool-cases, inl, inr, ap, ◌∙◌, ◌||◌,
}
use offline_qr_school_attend.Ingest.Types.{IngestContext, NormalizedRead, Outcome}
use offline_qr_school_attend.Ingest.Write.{
  is_loggable, scan_event, has_key, insert_scan, log_scan, log_one, log_scans,
}
use offline_qr_school_attend.Store.{ScanEvent}

-- No idempotency key stands twice.
abbrev pub HasUniqueKeys : List ScanEvent → Type 0
HasUniqueKeys [] = Unit
HasUniqueKeys (e ∷ es) = (anyb (has_key e.idempotency_key) es ≡ false) × HasUniqueKeys es

anyb-append {ℓ} :
    {A : Type ℓ} (p : A → Bool) (xs ys : List A) → anyb p (xs ++ ys) ≡ (anyb p xs || anyb p ys)
anyb-append p [] ys = refl
anyb-append p (x ∷ xs) ys = ground (arith, anyb-append p xs ys)

append-HasUniqueKeys :
    (es : List ScanEvent) (x : ScanEvent)
    → anyb (has_key x.idempotency_key) es ≡ false
    → HasUniqueKeys es
    → HasUniqueKeys (es ++ x ∷ [])
append-HasUniqueKeys [] x h k = (refl, tt)
append-HasUniqueKeys (e ∷ es) x h (p, k) =
    ground (arith, append-HasUniqueKeys es x, anyb-append (has_key e.idempotency_key) es (x ∷ []))

insert_scan-HasUniqueKeys :
    (x : ScanEvent) (es : List ScanEvent) → HasUniqueKeys es → HasUniqueKeys (insert_scan x es)
unfolding insert_scan
insert_scan-HasUniqueKeys x es h = elim (Bool-cases (anyb (has_key x.idempotency_key) es)) [
  | inl old ↦ rw old h
  | inr new ↦ rw new (append-HasUniqueKeys es x new h)
]

anyb-insert_scan :
    (k : ℕ) (x : ScanEvent) (es : List ScanEvent)
    → anyb (has_key k) (insert_scan x es) ≡ (has_key k x || anyb (has_key k) es)
unfolding insert_scan
anyb-insert_scan k x es = elim (Bool-cases (anyb (has_key x.idempotency_key) es)) [
  | inl old ↦ elim (Bool-cases (has_key k x)) [
    | inl own ↦
        let e : x.idempotency_key ≡ k = ground arith in
        rw (old, own) (subst (λ y. anyb (has_key y) es ≡ true) e old)
    | inr other ↦ rw (old, other)
  ]
  | inr new ↦ rw new (ground (arith, anyb-append (has_key k) es (x ∷ [])))
]

-- The key under which an outcome is logged stands in the log.
abbrev pub IsLogged : List ScanEvent → Outcome → Type 0
IsLogged es o =
    (r : NormalizedRead)
    → o.read ≡ some r
    → is_loggable o ≡ true
    → anyb (has_key r.idempotency_key) es ≡ true

module _ (ctx : IngestContext) (reader : ℕ) where
  log_scan-keeps :
      (k : ℕ) (o : Outcome) (m : Option NormalizedRead) (es : List ScanEvent)
      → anyb (has_key k) es ≡ true
      → anyb (has_key k) (log_scan ctx reader o m es) ≡ true
  log_scan-keeps k o none es h = h
  log_scan-keeps k o (some r) es h = rw anyb-insert_scan (ground (arith, h))

  log_one-keeps :
      (k : ℕ) (o : Outcome) (es : List ScanEvent)
      → anyb (has_key k) es ≡ true
      → anyb (has_key k) (log_one ctx reader o es) ≡ true
  log_one-keeps k o es h = elim (Bool-cases (is_loggable o)) [
    | inl log ↦ rw log (log_scan-keeps k o o.read es h)
    | inr skip ↦ rw skip h
  ]

  log_scans-keeps :
      (k : ℕ) (os : List Outcome) (es : List ScanEvent)
      → anyb (has_key k) es ≡ true
      → anyb (has_key k) (log_scans ctx reader os es) ≡ true
  unfolding log_scans
  log_scans-keeps k [] es h = h
  log_scans-keeps k (o ∷ os) es h =
      log_scans-keeps k os (log_one ctx reader o es) (log_one-keeps k o es h)

  log_one-IsLogged : (o : Outcome) (es : List ScanEvent) → IsLogged (log_one ctx reader o es) o
  log_one-IsLogged o es r e log = rw (log, e, log_one) (rw anyb-insert_scan (ground arith))

  pub log_scans-IsLogged :
      (os : List Outcome) (es : List ScanEvent) → All (IsLogged (log_scans ctx reader os es)) os
  unfolding log_scans
  log_scans-IsLogged [] es = tt
  log_scans-IsLogged (o ∷ os) es = (
    λ r e log.
        log_scans-keeps r.idempotency_key os (log_one ctx reader o es)
          (log_one-IsLogged o es r e log),
    log_scans-IsLogged os (log_one ctx reader o es),
  )

  log_scan-HasUniqueKeys :
      (o : Outcome) (m : Option NormalizedRead) (es : List ScanEvent)
      → HasUniqueKeys es
      → HasUniqueKeys (log_scan ctx reader o m es)
  log_scan-HasUniqueKeys o none es h = h
  log_scan-HasUniqueKeys o (some r) es h =
      insert_scan-HasUniqueKeys (scan_event ctx reader o r) es h

  log_one-HasUniqueKeys :
      (o : Outcome) (es : List ScanEvent)
      → HasUniqueKeys es
      → HasUniqueKeys (log_one ctx reader o es)
  log_one-HasUniqueKeys o es h = elim (Bool-cases (is_loggable o)) [
    | inl log ↦ rw log (log_scan-HasUniqueKeys o o.read es h)
    | inr skip ↦ rw skip h
  ]

  pub log_scans-HasUniqueKeys :
      (os : List Outcome) (es : List ScanEvent)
      → HasUniqueKeys es
      → HasUniqueKeys (log_scans ctx reader os es)
  unfolding log_scans
  log_scans-HasUniqueKeys [] es h = h
  log_scans-HasUniqueKeys (o ∷ os) es h =
      log_scans-HasUniqueKeys os (log_one ctx reader o es) (log_one-HasUniqueKeys o es h)

  -- An outcome that is logged already adds nothing.
  log_scan_same :
      (o : Outcome) (m : Option NormalizedRead) (es : List ScanEvent)
      → ((r : NormalizedRead) → m ≡ some r → anyb (has_key r.idempotency_key) es ≡ true)
      → log_scan ctx reader o m es ≡ es
  unfolding insert_scan
  log_scan_same o none es h = refl
  log_scan_same o (some r) es h = rw (h r refl)

  log_one_same : (o : Outcome) (es : List ScanEvent) → IsLogged es o → log_one ctx reader o es ≡ es
  log_one_same o es h = elim (Bool-cases (is_loggable o)) [
    | inl log ↦ rw log (log_scan_same o o.read es (λ r e. h r e log))
    | inr skip ↦ rw skip
  ]

  pub log_scans_same :
      (os : List Outcome) (es : List ScanEvent)
      → All (IsLogged es) os
      → log_scans ctx reader os es ≡ es
  unfolding log_scans
  log_scans_same [] es h = refl
  log_scans_same (o ∷ os) es (p, h) =
      ap (log_scans ctx reader os) (log_one_same o es p) ∙ log_scans_same os es h
