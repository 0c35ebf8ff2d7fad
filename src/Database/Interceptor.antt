-- ===== src/Database/Interceptor.antt =====
-- database_tx_interceptor.go: each unary call runs in one transaction.
use fulfillment_service.Common.{Result, ok, err, ℕ}
use fulfillment_service.Common.Exec.{Exec}
use fulfillment_service.Database.Tx.{Session, Faults, begin, end}

-- The deferred function of `UnaryServer`: the error of the method comes first.
abbrev pub final_result : {E F A : Type 0} → F → Result F A → Result E (Unit {0}) → Result F A
final_result failed (err e) ended = err e
final_result failed (ok a) (ok _) = ok a
final_result failed (ok a) (err _) = err failed

-- `TxInterceptor.UnaryServer`, from the data that the database holds to the data that it holds after
-- the call. `failed` is the status 'failed to end transaction', `other` the error for a foreign
-- transaction. The handler may have errors of its own. (`Begin` of the manager never fails.)
unfoldable pub unary_server :
    {E F D A : Type 0} → Faults E → F → E → ℕ → Exec F (Session E D) A → D → Result F A × D
unfolding end
unary_server f failed other m handler d =
    let (response, s) = handler (begin m d) in
    let (ended, s') = end f other m s in (final_result failed response ended, s'.committed)
