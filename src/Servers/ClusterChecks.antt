-- ===== src/Servers/ClusterChecks.antt =====
-- private_clusters_server.go: what `PrivateClustersServer` checks and changes before it stores a
-- cluster.
use fulfillment_service.Common.{
  Bool, true, false, not, ℕ, Option, none, some, List, [], ◌∷◌, String, Result, ok, err, ◌==◌,
  str_eq, if◌then◌else◌, any, leb, ◌>>=◌,
}
use fulfillment_service.Common.Int.{ℤ, pos, negsuc}
use fulfillment_service.Dao.Types.{Object}
use fulfillment_service.Dao.Metadata.{sort_strings}
use fulfillment_service.Utils.Maps.{Map, at_key, keys}
use fulfillment_service.Utils.Templates.{
  Template, ParameterError, validate_template_parameters, process_template_parameters_with_defaults,
}
use fulfillment_service.Api.Cluster.{NodeSet, Condition, ClusterSpec, Cluster, ClusterTemplate}
use fulfillment_service.Servers.Generic.{Status}

-- The statuses of the server, by what their texts name; all but `failed_to_get_template` and those of
-- the generic server have code `InvalidArgument`.
pub data ClusterError : Type 0 where
  cluster_mandatory template_mandatory : ClusterError
  failed_to_get_template template_missing template_deleted : String → ClusterError
  node_set_missing : String → String → List String → ClusterError
  host_class_should_be : String → String → String → String → ClusterError
  size_not_positive : String → ℤ → ClusterError
  bad_parameters : ParameterError → ClusterError
  condition_duplicated : ℕ → ClusterError
  generic : Status → ClusterError

-- A test, or the error.
abbrev pub ensure : {E : Type 0} → Bool → E → Result E (Unit {0})
ensure true e = ok tt
ensure false e = err e

-- The loop of `validateNoDuplicateConditions`, with the bit set of the types so far.
abbrev pub check_conditions : List ℕ → List Condition → Result ClusterError (Unit {0})
check_conditions seen [] = ok tt
check_conditions seen (c ∷ conditions) =
    if any (λ t. t == c.type) seen
    then err (condition_duplicated c.type)
    else check_conditions (c.type ∷ seen) conditions

abbrev pub conditions_of : Option (Object Cluster) → List Condition
conditions_of none = []
conditions_of (some cluster) = elim cluster.payload.status [
  | none ↦ []
  | some status ↦ status.conditions
]

unfoldable pub validate_no_duplicate_conditions :
    Option (Object Cluster) → Result ClusterError (Unit {0})
validate_no_duplicate_conditions request = check_conditions [] (conditions_of request)

module _ (template : Object ClusterTemplate) where
  -- Every node set of the cluster is one of the template.
  abbrev pub check_node_sets : Map NodeSet → Result ClusterError (Unit {0})
  check_node_sets [] = ok tt
  check_node_sets (entry ∷ sets) = elim (at_key entry.0 template.payload.node_sets) [
    | none ↦
        err (node_set_missing entry.0 template.id (sort_strings (keys template.payload.node_sets)))
    | some set ↦ check_node_sets sets
  ]

  abbrev pub template_host_class : String → String
  template_host_class key = elim (at_key key template.payload.node_sets) [
    | none ↦ ""
    | some set ↦ set.host_class
  ]

  -- Its host class is empty or the template's.
  abbrev pub check_host_classes : Map NodeSet → Result ClusterError (Unit {0})
  check_host_classes [] = ok tt
  check_host_classes (entry ∷ sets) =
      if str_eq (entry.1).host_class ""
      then check_host_classes sets
      else if str_eq (entry.1).host_class (template_host_class entry.0)
      then check_host_classes sets
      else err (
          host_class_should_be entry.0 (template_host_class entry.0) template.id
            (entry.1).host_class)

-- The size of the cluster's node set, or else the template's.
abbrev pub size_or : Option NodeSet → ℤ → ℤ
size_or none size = size
size_or (some set) size = set.size

-- The template's node sets, each with the size that the cluster gives it.
abbrev pub actual_node_sets : Map NodeSet → Map NodeSet → Map NodeSet
actual_node_sets [] sets = []
actual_node_sets (entry ∷ template_sets) sets =
    (
      entry.0,
      record {
        host_class = (entry.1).host_class;
        size = size_or (at_key entry.0 sets) (entry.1).size;
      },
    )
    ∷ actual_node_sets template_sets sets

-- `size > 0`
abbrev pub is_positive : ℤ → Bool
is_positive (pos n) = leb 1 n
is_positive (negsuc n) = false

abbrev pub check_sizes : Map NodeSet → Result ClusterError (Unit {0})
check_sizes [] = ok tt
check_sizes (entry ∷ sets) =
    if is_positive (entry.1).size
    then check_sizes sets
    else err (size_not_positive entry.0 (entry.1).size)

-- `ClusterTemplateAdapter`
abbrev pub adapted : Object ClusterTemplate → Template
adapted template = record { id = template.id; parameters = template.payload.parameters }

abbrev pub as_bad_parameters : {A : Type 0} → Result ParameterError A → Result ClusterError A
as_bad_parameters (ok a) = ok a
as_bad_parameters (err e) = err (bad_parameters e)

-- `HasDeletionTimestamp`
abbrev pub is_deleted : {P : Type 0} → Object P → Bool
is_deleted object = elim object.metadata [
  | none ↦ false
  | some m ↦ elim m.deletion_timestamp [ none ↦ false | some t ↦ true ]
]

-- `validateAndTransformCluster`, from the check that the template isn't deleted on.
unfoldable pub transform_spec :
    Object ClusterTemplate → ClusterSpec → Result ClusterError ClusterSpec
transform_spec template spec = do
  live ← ensure (not (is_deleted template)) (template_deleted spec.template)
  known ← check_node_sets template spec.node_sets
  matching ← check_host_classes template spec.node_sets
  sized ← check_sizes spec.node_sets
  typed ←
      as_bad_parameters (validate_template_parameters (adapted template) spec.template_parameters)
  ok (record spec {
    node_sets = actual_node_sets template.payload.node_sets spec.node_sets;
    template_parameters =
        process_template_parameters_with_defaults (adapted template) spec.template_parameters;
  })
