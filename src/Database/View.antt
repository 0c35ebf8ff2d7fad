-- ===== src/Database/View.antt =====
-- Transactions whose data has several parts: a method that reads one part, run on the whole.
use fulfillment_service.Common.{none, some, ◌≡◌, arith}
use fulfillment_service.Common.Exec.{Exec}
use fulfillment_service.Database.Tx.{Session, working}

module _ {E D D' : Type 0} (view : D → D') where
  -- The session as a method sees it that works on one part of the data.
  abbrev pub seen : Session E D → Session E D'
  seen s = record {
    manager = s.manager;
    committed = view s.committed;
    real = elim s.real [ none ↦ none | some d ↦ some (view d) ];
    errs = s.errs;
    statements = s.statements;
  }

  -- The session after that method, which has read and not written.
  abbrev pub unseen : Session E D → Session E D' → Session E D
  unseen s s' = record s {
    errs = s'.errs;
    statements = s'.statements;
    real = elim s'.real [ none ↦ s.real | some _ ↦ some (working s) ];
  }

  unfoldable pub through : {A : Type 0} → Exec E (Session E D') A → Exec E (Session E D) A
  through m s = let (r, s') = m (seen s) in (r, unseen s s')

  pub working-unseen : (s : Session E D) (s' : Session E D') → working (unseen s s') ≡ working s
  working-unseen s s' = ground arith
