-- ===== src/Dao/Calls.antt =====
-- The public methods of the generic DAO, each called once in a transaction of its own by the
-- interceptor, and sequences of such calls.
use fulfillment_service.Common.{
  Bool, Option, List, [], ◌∷◌, String, ◌≡◌, sym, some, Result, err, Result-cases,
}
use mathlib.Core.Path.{subst}
use fulfillment_service.Common.Exec.{pure, ◌>>=◌, ◌>>◌}
use fulfillment_service.Database.Tx.{reporting}
use fulfillment_service.Database.Triple.{Triple-bind, Triple-pure}
use fulfillment_service.Database.Interceptor.{unary_server}
use fulfillment_service.Database.Atomic.{Outcome, unary_server-Outcome, unary_server_restores}
use fulfillment_service.Dao.Types.{Object, Error, failure, Tables, Dao, Env, Method}
use fulfillment_service.Dao.Methods.{get, exists, create, update, delete}
use fulfillment_service.Dao.Listing.{ListRequest, ListResponse, list}
use fulfillment_service.Dao.Invariant.{IsWellFormed}
use fulfillment_service.Dao.Preserves.{
  Keeps, get-Keeps, exists-Keeps, list-Keeps, create-Keeps, update-Keeps, delete-Keeps,
}

pub data Call (P : Type 0) : Type 0 where
  get_call exists_call delete_call : String → Call P
  list_call : ListRequest → Call P
  create_call update_call : Object P → Call P

pub data Reply (P : Type 0) : Type 0 where
  object_reply : Option (Object P) → Reply P
  bool_reply : Bool → Reply P
  list_reply : ListResponse P → Reply P
  empty_reply : Reply P

module _ {P W : Type 0} where
  unfoldable pub invoke : Dao P W → Env → Call P → Method W (Reply P)
  invoke d e (get_call id) = do o ← get d e id; pure (object_reply o)
  invoke d e (exists_call id) = do b ← exists d e id; pure (bool_reply b)
  invoke d e (delete_call id) = do delete d e id; pure empty_reply
  invoke d e (list_call request) = do l ← list d e request; pure (list_reply l)
  invoke d e (create_call object) = do o ← create d e object; pure (object_reply (some o))
  invoke d e (update_call object) = do o ← update d e object; pure (object_reply o)

  -- One call, on what the database holds.
  unfoldable pub serve_call : Dao P W → Env → Call P → Tables W → Result Error (Reply P) × Tables W
  serve_call d e c =
      unary_server e.faults (failure "failed to end transaction")
        (failure "transaction belongs to another transaction manager") 0 (reporting (invoke d e c))

  -- Calls of any users, each with its own context, time and faults, one after the other.
  unfoldable pub serve : List (Dao P W × Env × Call P) → Tables W → Tables W
  unfolding serve_call
  serve [] t = t
  serve ((d, e, c) ∷ calls) t = serve calls (serve_call d e c t).1

  keep_result :
      {A : Type 0} (Q : Tables W → Type 0) (m : Method W A) (f : A → Reply P)
      → Keeps Q m
      → Keeps Q (m >>= λ a. pure (f a))
  keep_result Q m f k = Triple-bind (λ _. Q) m _ k (λ a. Triple-pure (f a) (λ t h. h))

  invoke-Keeps : (d : Dao P W) (e : Env) (c : Call P) → Keeps IsWellFormed (invoke d e c)
  unfolding invoke
  invoke-Keeps d e (get_call id) = keep_result IsWellFormed _ _ (get-Keeps d e _ id)
  invoke-Keeps d e (exists_call id) = keep_result IsWellFormed _ _ (exists-Keeps d e _ id)
  invoke-Keeps d e (delete_call id) = keep_result IsWellFormed _ _ (delete-Keeps d e id)
  invoke-Keeps d e (list_call request) = keep_result IsWellFormed _ _ (list-Keeps d e _ request)
  invoke-Keeps d e (create_call object) = keep_result IsWellFormed _ _ (create-Keeps d e object)
  invoke-Keeps d e (update_call object) = keep_result IsWellFormed _ _ (update-Keeps d e object)

  keep_outcome :
      (Q : Tables W → Type 0) (t : Tables W) (r : Result Error (Reply P) × Tables W)
      → Outcome (λ _. Q) t r
      → Q t
      → Q r.1
  keep_outcome Q t r o q = Result-cases r.0 (o.on_ok) (λ e h. subst Q (sym (o.on_err e h)) q)

  serve_call-IsWellFormed :
      (d : Dao P W) (e : Env) (c : Call P) (t : Tables W)
      → IsWellFormed t
      → IsWellFormed (serve_call d e c t).1
  unfolding serve_call
  serve_call-IsWellFormed d e c t h =
      keep_outcome IsWellFormed t _
        (unary_server-Outcome _ _ _ 0 IsWellFormed (λ _. IsWellFormed) (invoke d e c) t
          (invoke-Keeps d e c) h)
        h

  -- After any sequence of calls, with whatever contexts, faults and callbacks, and whether they
  -- succeed or fail, the tables are well formed if they were so before: no identifier stands in two
  -- rows, and no row that is deleted is left without finalizers.
  pub serve-IsWellFormed :
      (calls : List (Dao P W × Env × Call P)) (t : Tables W)
      → IsWellFormed t
      → IsWellFormed (serve calls t)
  unfolding serve
  serve-IsWellFormed [] t h = h
  serve-IsWellFormed ((d, e, c) ∷ calls) t h =
      serve-IsWellFormed calls (serve_call d e c t).1 (serve_call-IsWellFormed d e c t h)

  -- A call that fails, at any point and for any reason, leaves the database as it was: rows, archive
  -- and what the callbacks wrote.
  pub serve_call_error :
      (d : Dao P W) (e : Env) (c : Call P) (t : Tables W) (failed : Error)
      → (serve_call d e c t).0 ≡ err failed
      → (serve_call d e c t).1 ≡ t
  unfolding serve_call
  serve_call_error d e c t failed h =
      unary_server_restores _ _ _ 0 (invoke d e c) t ((invoke-Keeps d e c).frame _) failed h
