-- ===== src/Controllers/Orders.antt =====
-- cluster_reconciler_function.go and vm_reconciler_function.go: the messages of these controllers. The
-- types of conditions come in the order in which the map of their names is walked.
use fulfillment_service.Common.{
  ℕ, Option, none, some, List, [], ◌∷◌, ◌++◌, String, Result, ok, err, ◌==◌, str_eq, any, map,
  if◌then◌else◌, ◌>>=◌,
}
use fulfillment_service.Common.Int.{ℤ}
use fulfillment_service.Dao.Types.{Object}
use fulfillment_service.Utils.Maps.{Map}
use fulfillment_service.Utils.Templates.{Codecs, ConvertError, convert_template_parameters_to_json}
use fulfillment_service.Api.Cluster.{NodeSet, Condition, ClusterSpec, ClusterStatus, Cluster}
use fulfillment_service.Api.Machine.{MachineSpec, MachineStatus, Machine}
use fulfillment_service.Servers.ClusterChecks.{is_deleted}
use fulfillment_service.Controllers.Kube.{TaskError, client_error, Clients, Run}
use fulfillment_service.Controllers.Task.{Hub, Kind, get_hub, select_hub}
use fulfillment_service.Controllers.Tasks.{update, delete, run}

-- `..._STATE_UNSPECIFIED` and `..._STATE_PROGRESSING`, and `CONDITION_STATUS_FALSE`.
abbrev pub state_unspecified : ℕ
state_unspecified = 0

abbrev pub state_progressing : ℕ
state_progressing = 1

abbrev pub status_false : ℕ
status_false = 2

abbrev pub default_state : ℕ → ℕ
default_state state = if state == state_unspecified then state_progressing else state

-- `setConditionDefaults`
abbrev pub set_condition_defaults : List Condition → ℕ → List Condition
set_condition_defaults conditions value =
    if any (λ c. c.type == value) conditions
    then conditions
    else conditions
      ++ record {
        type = value;
        status = status_false;
        last_transition_time = none;
        reason = none;
        message = none;
      }
        ∷ []

-- The loop of `setDefaults` over the types that aren't zero.
abbrev pub default_conditions : List ℕ → List Condition → List Condition
default_conditions [] conditions = conditions
default_conditions (value ∷ values) conditions =
    if value == 0
    then default_conditions values conditions
    else default_conditions values (set_condition_defaults conditions value)

-- The start of `delete`: the saved hub, if there is one.
abbrev pub known_hub : Clients → String → Result TaskError (Option Hub)
known_hub clients hub =
    if str_eq hub "" then ok none else (do entered ← get_hub clients hub; ok (some entered))

-- The specification of a `ClusterOrder`.
pub record OrderSpec : Type 0 where
  pub template_id : String
  pub template_parameters : String
  pub node_requests : List (String × ℤ)

-- `prepareNodeRequests`: the host class and the size of each node set.
abbrev pub prepare_node_requests : Map NodeSet → List (String × ℤ)
prepare_node_requests sets = map (λ entry. ((entry.1).host_class, (entry.1).size)) sets

-- `GetStatus`, where a missing status has the zero values.
abbrev pub empty_cluster_status : ClusterStatus
empty_cluster_status = record {
  state = state_unspecified;
  conditions = [];
  api_url = "";
  console_url = "";
  node_sets = [];
  hub = "";
}

abbrev pub cluster_status : Object Cluster → ClusterStatus
cluster_status cluster = elim cluster.payload.status [ none ↦ empty_cluster_status | some s ↦ s ]

abbrev pub cluster_spec : Object Cluster → ClusterSpec
cluster_spec cluster = elim cluster.payload.spec [
  | none ↦ record { template = ""; template_parameters = []; node_sets = [] }
  | some spec ↦ spec
]

abbrev pub with_cluster_status : Object Cluster → ClusterStatus → Object Cluster
with_cluster_status cluster status = record cluster {
  payload = record cluster.payload { status = some status };
}

abbrev pub of_convert :
    {A : Type 0} → (ConvertError → String) → Result ConvertError A → Result TaskError A
of_convert text (ok a) = ok a
of_convert text (err e) = err (client_error (text e))

module _ {M V : Type 0} (codecs : Codecs M V) (text : ConvertError → String) (types : List ℕ) where
  unfoldable pub set_cluster_defaults : Object Cluster → Object Cluster
  set_cluster_defaults cluster = with_cluster_status cluster (record (cluster_status cluster) {
    state = default_state (cluster_status cluster).state;
    conditions = default_conditions types (cluster_status cluster).conditions;
  })

  unfoldable pub cluster_order_spec : Object Cluster → Result TaskError OrderSpec
  cluster_order_spec cluster = do
    parameters ←
        of_convert text
          (convert_template_parameters_to_json codecs (cluster_spec cluster).template_parameters)
    ok (record {
      template_id = (cluster_spec cluster).template;
      template_parameters = parameters;
      node_requests = prepare_node_requests (cluster_spec cluster).node_sets;
    })

  abbrev pub cluster_kind : Kind (Object Cluster) OrderSpec
  cluster_kind = record {
    identifier = λ cluster. cluster.id;
    has_deletion_timestamp = is_deleted;
    set_defaults = set_cluster_defaults;
    is_progressing = λ cluster. (cluster_status cluster).state == state_progressing;
    task_hub = λ clients cluster. select_hub clients (cluster_status cluster).hub;
    delete_hub = λ clients cluster. known_hub clients (cluster_status cluster).hub;
    save_hub =
        λ hub cluster. with_cluster_status cluster (record (cluster_status cluster) { hub = hub });
    make_spec = cluster_order_spec;
  }

  unfoldable pub run_cluster : Clients → Object Cluster → Run (Object Cluster) OrderSpec (Unit {0})
  run_cluster clients cluster = run cluster_kind clients cluster

-- The specification of a `VirtualMachine` in Kubernetes.
pub record MachineOrder : Type 0 where
  pub template_id : String
  pub template_parameters : String

abbrev pub machine_status : Object Machine → MachineStatus
machine_status vm = elim vm.payload.status [
  | none ↦ record { state = state_unspecified; conditions = []; ip_address = ""; hub = "" }
  | some s ↦ s
]

abbrev pub machine_spec : Object Machine → MachineSpec
machine_spec vm = elim vm.payload.spec [
  | none ↦ record { template = ""; template_parameters = [] }
  | some spec ↦ spec
]

abbrev pub with_machine_status : Object Machine → MachineStatus → Object Machine
with_machine_status vm status = record vm { payload = record vm.payload { status = some status } }

module _ {M V : Type 0} (codecs : Codecs M V) (text : ConvertError → String) (types : List ℕ) where
  unfoldable pub set_machine_defaults : Object Machine → Object Machine
  set_machine_defaults vm = with_machine_status vm (record (machine_status vm) {
    state = default_state (machine_status vm).state;
    conditions = default_conditions types (machine_status vm).conditions;
  })

  unfoldable pub machine_order : Object Machine → Result TaskError MachineOrder
  machine_order vm = do
    parameters ←
        of_convert text
          (convert_template_parameters_to_json codecs (machine_spec vm).template_parameters)
    ok (record { template_id = (machine_spec vm).template; template_parameters = parameters })

  abbrev pub machine_kind : Kind (Object Machine) MachineOrder
  machine_kind = record {
    identifier = λ vm. vm.id;
    has_deletion_timestamp = is_deleted;
    set_defaults = set_machine_defaults;
    is_progressing = λ vm. (machine_status vm).state == state_progressing;
    task_hub = λ clients vm. select_hub clients (machine_status vm).hub;
    delete_hub = λ clients vm. known_hub clients (machine_status vm).hub;
    save_hub = λ hub vm. with_machine_status vm (record (machine_status vm) { hub = hub });
    make_spec = machine_order;
  }

  unfoldable pub update_machine_order :
      Clients → Object Machine → Run (Object Machine) MachineOrder (Object Machine)
  update_machine_order clients vm = update machine_kind clients vm

  unfoldable pub delete_machine_order :
      Clients → Object Machine → Run (Object Machine) MachineOrder (Object Machine)
  delete_machine_order clients vm = delete machine_kind clients vm

  unfoldable pub run_machine :
      Clients → Object Machine → Run (Object Machine) MachineOrder (Unit {0})
  run_machine clients vm = run machine_kind clients vm
