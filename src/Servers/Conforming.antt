-- ===== src/Servers/Conforming.antt =====
-- The node sets of the clusters that private_clusters_server.go stores.
use fulfillment_service.Common.{
  true, Option, none, some, [], ◌∷◌, String, ◌≡◌, refl, ap, ◌∙◌, inl, inr, ok, arith, str_eq,
  str_eq_iff_eq, Bool-cases, All,
}
use fulfillment_service.Dao.Types.{Object}
use fulfillment_service.Utils.Maps.{Map, at_key, IsMap}
use fulfillment_service.Utils.Valid.{validate_iff}
use fulfillment_service.Utils.Defaults.{IsTypedDefault, All-at_key, validate-process}
use fulfillment_service.Api.Cluster.{NodeSet, ClusterSpec, ClusterTemplate}
use fulfillment_service.Servers.ClusterChecks.{
  is_positive, size_or, actual_node_sets, adapted, transform_spec,
}
use fulfillment_service.Servers.NodeSets.{
  IsAllowedSet, IsAllowed, transformed, IsAllowed-transform, transform_allowed,
}

-- A node set of the template with the size of the cluster's, if the template has one.
abbrev pub resized : Option NodeSet → Option NodeSet → Option NodeSet
resized none given = none
resized (some set) given =
    some (record { host_class = set.host_class; size = size_or given set.size })

at_key-actual :
    (key : String) (template_sets sets : Map NodeSet)
    → at_key key (actual_node_sets template_sets sets)
      ≡ resized (at_key key template_sets) (at_key key sets)
at_key-actual key [] sets = refl
at_key-actual key (entry ∷ template_sets) sets = elim (Bool-cases (str_eq entry.0 key)) [
  | inl here ↦
      let same : at_key entry.0 sets ≡ at_key key sets =
        ap (λ k. at_key k sets) (str_eq_iff_eq entry.0 key here) in
      ground arith
  | inr there ↦ ground (arith, at_key-actual key template_sets sets)
]

-- Each node set of a cluster that is accepted has the host class of the template and the size that
-- the cluster gave, or the size of the template where it gave none; a node set that the template does
-- not have is not there.
pub at_key-transform :
    (template : Object ClusterTemplate) (spec after : ClusterSpec) (key : String)
    → transform_spec template spec ≡ ok after
    → at_key key after.node_sets
      ≡ resized (at_key key template.payload.node_sets) (at_key key spec.node_sets)
at_key-transform t spec after key h =
    ap (λ (s : ClusterSpec). at_key key s.node_sets) (IsAllowed-transform t spec after h).1
    ∙ at_key-actual key t.payload.node_sets spec.node_sets

actual_again :
    (all sets rest : Map NodeSet)
    → All (λ entry. at_key entry.0 all ≡ some entry.1) rest
    → actual_node_sets rest (actual_node_sets all sets) ≡ actual_node_sets rest sets
actual_again all sets [] h = refl
actual_again all sets (entry ∷ rest) h =
    let there : at_key entry.0 (actual_node_sets all sets)
        ≡ some (record {
          host_class = (entry.1).host_class;
          size = size_or (at_key entry.0 sets) (entry.1).size;
        }) =
      ground (arith, at_key-actual entry.0 all sets, h.0) in
    ground (arith, actual_again all sets rest h.1)

IsAllowedSet-actual :
    (all sets rest : Map NodeSet)
    → All (λ entry. at_key entry.0 all ≡ some entry.1) rest
    → All (λ entry. is_positive (entry.1).size ≡ true) rest
    → All (IsAllowedSet all) sets
    → All (IsAllowedSet all) (actual_node_sets rest sets)
IsAllowedSet-actual all sets [] h p a = tt
IsAllowedSet-actual all sets (entry ∷ rest) h p a = (
  ((entry.1, h.0, inr refl), positive_or (at_key entry.0 sets) refl),
  IsAllowedSet-actual all sets rest h.1 p.1 a,
)
  where
    positive_or :
        (o : Option NodeSet)
        → at_key entry.0 sets ≡ o
        → is_positive (size_or o (entry.1).size) ≡ true
    positive_or none nothing = p.0
    positive_or (some set) found = (All-at_key (IsAllowedSet all) entry.0 set sets a found).1

-- A specification that the clusters server has made is accepted again and keeps its node sets, where
-- the sizes of the template are positive, its defaults have the types of their parameters and no two
-- of its node sets have one key.
pub transform-transform :
    (template : Object ClusterTemplate) (spec after : ClusterSpec)
    → IsMap template.payload.node_sets
    → All (λ entry. is_positive (entry.1).size ≡ true) template.payload.node_sets
    → All (IsTypedDefault template.payload.parameters) template.payload.parameters
    → transform_spec template spec ≡ ok after
    → (again : ClusterSpec) × (transform_spec template after ≡ ok again)
      × (again.node_sets ≡ after.node_sets)
transform-transform t spec after unique positive sound h =
    let ((live, sets, accepted), shape) = IsAllowed-transform t spec after h in
    let allowed : IsAllowed t (transformed t spec) = (
      live,
      IsAllowedSet-actual t.payload.node_sets spec.node_sets t.payload.node_sets unique positive
          sets,
      (validate_iff (adapted t) _).0 (
          validate-process (adapted t) spec.template_parameters sound
            ((validate_iff (adapted t) spec.template_parameters).1 accepted)),
    ) in
    rw shape (
      transformed t (transformed t spec),
      transform_allowed t (transformed t spec) allowed,
      actual_again t.payload.node_sets spec.node_sets t.payload.node_sets unique,
    )
