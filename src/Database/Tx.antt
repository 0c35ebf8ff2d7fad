-- ===== src/Database/Tx.antt =====
-- database_tx_manager.go: a managed transaction over data of type `D`. `real` holds the data as the
-- transaction sees it, once the real transaction has begun; `committed` is what the database holds.
use fulfillment_service.Common.{
  ℕ, ◌+◌, Option, none, some, List, [], ◌∷◌, ◌++◌, Result, ok, err, ◌==◌, if◌then◌else◌,
}
use fulfillment_service.Common.Exec.{Exec}

-- The fields of `managedTx`, beside the state of the database that it works on.
pub record Session (E D : Type 0) : Type 0 where
  pub manager : ℕ
  pub committed : D
  pub real : Option D
  pub errs : List E
  pub statements : ℕ

-- What the database may answer to `Begin`, to the statement with a given number, to `Commit` and to
-- `Rollback`: nothing, or an error.
pub record Faults (E : Type 0) : Type 0 where
  pub begin_error : Option E
  pub statement_error : ℕ → Option E
  pub commit_error : Option E
  pub rollback_error : Option E

abbrev pub done : {E : Type 0} → Option E → Result E (Unit {0})
done none = ok tt
done (some e) = err e

module _ {E D : Type 0} where
  -- `txManager.Begin`: no real transaction yet.
  abbrev pub begin : ℕ → D → Session E D
  begin m d = record { manager = m; committed = d; real = none; errs = []; statements = 0 }

  -- The data as the transaction sees it.
  abbrev pub working : Session E D → D
  working s = elim s.real [ none ↦ s.committed | some d ↦ d ]

  -- `managedTx.ReportError`
  unfoldable pub report_error : {A : Type 0} → Result E A → Session E D → Session E D
  report_error (ok _) s = s
  report_error (err e) s = record s { errs = s.errs ++ e ∷ [] }

  -- A method with `defer tx.ReportError(&err)`.
  unfoldable pub reporting : {A : Type 0} → Exec E (Session E D) A → Exec E (Session E D) A
  unfolding report_error
  reporting m s = let (r, s') = m s in (r, report_error r s')

module _ {E D : Type 0} (f : Faults E) where
  -- `managedTx.ensureReal`
  unfoldable pub ensure_real : Exec E (Session E D) (Unit {0})
  ensure_real s = elim s.real [
    | some d ↦ (ok tt, s)
    | none ↦ elim f.begin_error [
      | some e ↦ (err e, s)
      | none ↦ (ok tt, record s { real = some s.committed })
    ]
  ]

  -- A statement of the real transaction: it fails and changes nothing, or runs on the data.
  abbrev run_real : {A : Type 0} → (D → Result E A × D) → Exec E (Session E D) A
  run_real run s = elim (f.statement_error s.statements) [
    | some e ↦ (err e, record s { statements = s.statements + 1 })
    | none ↦
        let (r, d) = run (working s) in
        (r, record s { real = some d; statements = s.statements + 1 })
  ]

  -- `managedTx.Query`, `QueryRow` followed by `Scan`, and `Exec`: they begin the real transaction if
  -- needed. An error of `ensureReal` is what the call returns (`managedRow` keeps it for `Scan`).
  unfoldable pub query : {A : Type 0} → (D → Result E A × D) → Exec E (Session E D) A
  unfolding ensure_real
  query run s =
      let (begun, s') = ensure_real s in elim begun [ ok _ ↦ run_real run s' | err e ↦ (err e, s') ]

  -- `txManager.end`, with the manager that ends the transaction: commit if no error was reported,
  -- else roll back. A commit that fails leaves the database as it was.
  unfoldable pub end : E → ℕ → Session E D → Result E (Unit {0}) × Session E D
  end other m s =
      if m == s.manager
      then (elim s.real [
        | none ↦ (ok tt, s)
        | some d ↦ elim s.errs [
          | [] ↦ elim f.commit_error [
            | none ↦ (ok tt, record s { committed = d; real = none })
            | some e ↦ (err e, record s { real = none })
          ]
          | _ ∷ _ ↦ (done f.rollback_error, record s { real = none })
        ]
      ])
      else (err other, s)
