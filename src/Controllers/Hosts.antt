-- ===== src/Controllers/Hosts.antt =====
-- hostpool_reconciler_function.go and host_reconciler_function.go: the messages of these controllers.
use fulfillment_service.Common.{
  ℕ, true, none, some, Option, List, [], String, Result, ok, err, ◌==◌, str_eq, map, if◌then◌else◌,
  ◌>>=◌,
}
use fulfillment_service.Common.Int.{ℤ}
use fulfillment_service.Dao.Types.{Object}
use fulfillment_service.Utils.Maps.{Map}
use fulfillment_service.Api.Cluster.{NodeSet}
use fulfillment_service.Api.Host.{PoolStatus, Pool, HostStatus, Host}
use fulfillment_service.Servers.ClusterChecks.{is_deleted}
use fulfillment_service.Controllers.Kube.{
  TaskError, no_host_pool, no_pool_hub, Clients, of_client, Run,
}
use fulfillment_service.Controllers.Task.{Hub, Kind, get_hub, select_hub}
use fulfillment_service.Controllers.Tasks.{update, delete, run}
use fulfillment_service.Controllers.Orders.{
  state_unspecified, state_progressing, default_state, default_conditions,
}

abbrev pub pool_status : Object Pool → PoolStatus
pool_status pool = elim pool.payload.status [
  | none ↦ record {
    state = state_unspecified;
    hosts = [];
    conditions = [];
    host_sets = [];
    hub = "";
  }
  | some s ↦ s
]

abbrev pub pool_host_sets : Object Pool → Map NodeSet
pool_host_sets pool = elim pool.payload.spec [ none ↦ [] | some spec ↦ spec.host_sets ]

abbrev pub with_pool_status : Object Pool → PoolStatus → Object Pool
with_pool_status pool status = record pool {
  payload = record pool.payload { status = some status };
}

abbrev pub in_some_hub : Result TaskError Hub → Result TaskError (Option Hub)
in_some_hub (ok hub) = ok (some hub)
in_some_hub (err e) = err e

-- `prepareHostSetRequests`: the host class and the size of each host set.
abbrev pub prepare_host_set_requests : Map NodeSet → List (String × ℤ)
prepare_host_set_requests sets = map (λ entry. ((entry.1).host_class, (entry.1).size)) sets

module _ (types : List ℕ) where
  unfoldable pub set_pool_defaults : Object Pool → Object Pool
  set_pool_defaults pool = with_pool_status pool (record (pool_status pool) {
    state = default_state (pool_status pool).state;
    conditions = default_conditions types (pool_status pool).conditions;
  })

  abbrev pub pool_kind : Kind (Object Pool) (List (String × ℤ))
  pool_kind = record {
    identifier = λ pool. pool.id;
    has_deletion_timestamp = is_deleted;
    set_defaults = set_pool_defaults;
    is_progressing = λ pool. (pool_status pool).state == state_progressing;
    task_hub = λ clients pool. select_hub clients (pool_status pool).hub;
    delete_hub = λ clients pool. in_some_hub (select_hub clients (pool_status pool).hub);
    save_hub = λ hub pool. with_pool_status pool (record (pool_status pool) { hub = hub });
    make_spec = λ pool. ok (prepare_host_set_requests (pool_host_sets pool));
  }

  unfoldable pub update_pool_order :
      Clients → Object Pool → Run (Object Pool) (List (String × ℤ)) (Object Pool)
  update_pool_order clients pool = update pool_kind clients pool

  unfoldable pub delete_pool_order :
      Clients → Object Pool → Run (Object Pool) (List (String × ℤ)) (Object Pool)
  delete_pool_order clients pool = delete pool_kind clients pool

  unfoldable pub run_pool : Clients → Object Pool → Run (Object Pool) (List (String × ℤ)) (Unit {0})
  run_pool clients pool = run pool_kind clients pool

-- `HOST_POWER_STATE_UNSPECIFIED` and `HOST_POWER_STATE_OFF`.
abbrev pub power_state_unspecified : ℕ
power_state_unspecified = 0

abbrev pub power_state_off : ℕ
power_state_off = 2

abbrev pub host_status : Object Host → HostStatus
host_status host = elim host.payload.status [
  | none ↦ record {
    state = state_unspecified;
    power_state = power_state_unspecified;
    conditions = [];
    host_pool = "";
  }
  | some s ↦ s
]

-- The power state of the specification, which the order has by its name.
abbrev pub wanted_power_state : Object Host → ℕ
wanted_power_state host = elim host.payload.spec [
  | none ↦ power_state_unspecified
  | some spec ↦ spec.power_state
]

unfoldable pub set_host_defaults : Object Host → Object Host
set_host_defaults host = record host {
  payload = record host.payload {
    status = some (record (host_status host) {
      power_state =
          if (host_status host).power_state == power_state_unspecified
          then power_state_off
          else (host_status host).power_state;
    });
  };
}

-- `selectHub`: the hub of the parent host pool.
unfoldable pub select_host_hub : Clients → String → Result TaskError Hub
select_host_hub clients pool = if str_eq pool "" then err no_host_pool else (do
  hub ← of_client (clients.pool_hub pool)
  if str_eq hub "" then err no_pool_hub else get_hub clients hub)

abbrev pub host_kind : Kind (Object Host) ℕ
host_kind = record {
  identifier = λ host. host.id;
  has_deletion_timestamp = is_deleted;
  set_defaults = set_host_defaults;
  is_progressing = λ host. true;
  task_hub = λ clients host. select_host_hub clients (host_status host).host_pool;
  delete_hub = λ clients host. in_some_hub (select_host_hub clients (host_status host).host_pool);
  save_hub = λ hub host. host;
  make_spec = λ host. ok (wanted_power_state host);
}

unfoldable pub update_host_order : Clients → Object Host → Run (Object Host) ℕ (Object Host)
update_host_order clients host = update host_kind clients host

unfoldable pub delete_host_order : Clients → Object Host → Run (Object Host) ℕ (Object Host)
delete_host_order clients host = delete host_kind clients host

unfoldable pub run_host : Clients → Object Host → Run (Object Host) ℕ (Unit {0})
run_host clients host = run host_kind clients host
