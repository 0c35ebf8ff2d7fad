-- ===== src/Servers/NodeSets.antt =====
-- Which specifications of clusters private_clusters_server.go accepts for a template, and the node sets
-- that it gives them.
use fulfillment_service.Common.{
  Bool, true, false, not, some, [], ◌∷◌, String, ◌≡◌, refl, ap, ◌↔◌, ◌⊎◌, inl, inr, Result, ok, err,
  arith, str_eq, str_eq_iff_eq, str_eq_refl, Bool-cases, Option-cases, Result-cases, All, ◌>>=◌,
}
use fulfillment_service.Dao.Types.{Object}
use fulfillment_service.Utils.Maps.{Map, at_key}
use fulfillment_service.Utils.Templates.{
  Any, validate_template_parameters, process_template_parameters_with_defaults,
}
use fulfillment_service.Utils.Valid.{Accepts, validate_iff}
use fulfillment_service.Api.Cluster.{NodeSet, ClusterSpec, ClusterTemplate}
use fulfillment_service.Servers.ClusterChecks.{
  ClusterError, template_deleted, ensure, is_deleted, check_node_sets, check_host_classes,
  is_positive, check_sizes, actual_node_sets, adapted, as_bad_parameters, transform_spec,
}

-- A node set of the template, with its host class or none, and a positive size.
abbrev pub IsAllowedSet : Map NodeSet → String × NodeSet → Type 0
IsAllowedSet sets entry =
    ((set : NodeSet) × (at_key entry.0 sets ≡ some set)
      × (((entry.1).host_class ≡ "") ⊎ ((entry.1).host_class ≡ set.host_class)))
    × (is_positive (entry.1).size ≡ true)

abbrev pub IsAllowed : Object ClusterTemplate → ClusterSpec → Type 0
IsAllowed template spec =
    (is_deleted template ≡ false)
    × All (IsAllowedSet template.payload.node_sets) spec.node_sets
    × Accepts (adapted template) spec.template_parameters

module _ (t : Object ClusterTemplate) where
  allowed_of_checks :
      (sets : Map NodeSet)
      → check_node_sets t sets ≡ ok tt
      → check_host_classes t sets ≡ ok tt
      → check_sizes sets ≡ ok tt
      → All (IsAllowedSet t.payload.node_sets) sets
  allowed_of_checks [] known matching sized = tt
  allowed_of_checks (entry ∷ sets) known matching sized =
      elim (Option-cases (at_key entry.0 t.payload.node_sets)) [
        | inl nothing ↦ absurd (ground arith)
        | inr (set, found) ↦
            let positive : is_positive (entry.1).size ≡ true = ground arith in
            let small : check_sizes sets ≡ ok tt = ground arith in
            let there : check_node_sets t sets ≡ ok tt = ground arith in
            elim (Bool-cases (str_eq (entry.1).host_class "")) [
              | inl empty ↦ (
                ((set, found, inl (str_eq_iff_eq (entry.1).host_class "" empty)), positive),
                allowed_of_checks sets there (ground arith) small,
              )
              | inr given ↦ elim (Bool-cases (str_eq (entry.1).host_class set.host_class)) [
                | inl same ↦ (
                  (
                    (set, found, inr (str_eq_iff_eq (entry.1).host_class set.host_class same)),
                    positive,
                  ),
                  allowed_of_checks sets there (ground arith) small,
                )
                | inr other ↦ absurd (ground arith)
              ]
            ]
      ]

  checks_of_allowed :
      (sets : Map NodeSet)
      → All (IsAllowedSet t.payload.node_sets) sets
      → (check_node_sets t sets ≡ ok tt)
        × (check_host_classes t sets ≡ ok tt)
        × (check_sizes sets ≡ ok tt)
  checks_of_allowed [] h = (refl, refl, refl)
  checks_of_allowed (entry ∷ sets) (((set, found, class), positive), h) =
      let (known, matching, sized) = checks_of_allowed sets h in
      (
        ground arith,
        elim class [
          | inl empty ↦ ground (arith, ap (λ c. str_eq c "") empty)
          | inr same ↦ ground (
            arith,
            ap (λ c. str_eq (entry.1).host_class c) same,
            str_eq_refl (entry.1).host_class,
          )
        ],
        ground arith,
      )

  live_ok : (b : Bool) (e : ClusterError) → ensure (not b) e ≡ ok tt → b ≡ false
  live_ok true e h = absurd cc
  live_ok false e h = refl

  parameters_ok :
      (m : Map Any)
      → as_bad_parameters (validate_template_parameters (adapted t) m) ≡ ok tt
      → Accepts (adapted t) m
  parameters_ok m h =
      Result-cases (validate_template_parameters (adapted t) m)
        (λ (u : Unit {0}) e. (validate_iff (adapted t) m).0 e) (λ x e. absurd (ground arith))

  -- The specification that is stored for an allowed one.
  abbrev pub transformed : ClusterSpec → ClusterSpec
  transformed spec = record spec {
    node_sets = actual_node_sets t.payload.node_sets spec.node_sets;
    template_parameters =
        process_template_parameters_with_defaults (adapted t) spec.template_parameters;
  }

  pub transform_allowed :
      (spec : ClusterSpec) → IsAllowed t spec → transform_spec t spec ≡ ok (transformed spec)
  unfolding transform_spec
  transform_allowed spec (live, sets, accepted) =
      let (known, matching, sized) = checks_of_allowed spec.node_sets sets in
      let typed : validate_template_parameters (adapted t) spec.template_parameters ≡ ok tt =
        (validate_iff (adapted t) spec.template_parameters).1 accepted in
      ground arith

bind_ok :
    {E A : Type 0} (r : Result E (Unit {0})) (f : Unit {0} → Result E A) (a : A)
    → (r >>= f) ≡ ok a
    → (r ≡ ok tt) × (f tt ≡ ok a)
bind_ok (ok tt) f a h = (refl, h)
bind_ok (err e) f a h = absurd cc

module _ (t : Object ClusterTemplate) where
  pub IsAllowed-transform :
      (spec after : ClusterSpec)
      → transform_spec t spec ≡ ok after
      → IsAllowed t spec × (after ≡ transformed t spec)
  unfolding transform_spec
  IsAllowed-transform spec after h =
      let (live, h1) = bind_ok _ _ after h in
      let (known, h2) = bind_ok _ _ after h1 in
      let (matching, h3) = bind_ok _ _ after h2 in
      let (sized, h4) = bind_ok _ _ after h3 in
      let (typed, h5) = bind_ok _ _ after h4 in
      (
        (
          live_ok t (is_deleted t) (template_deleted spec.template) live,
          allowed_of_checks t spec.node_sets known matching sized,
          parameters_ok t spec.template_parameters typed,
        ),
        ground arith,
      )

  -- A specification of a cluster is accepted for a template if and only if the template has not been
  -- deleted, every node set of the cluster is one of the template, with its host class or an empty
  -- one and a positive size, and the parameters are accepted.
  pub transform_iff :
      (spec : ClusterSpec)
      → ((after : ClusterSpec) × (transform_spec t spec ≡ ok after)) ↔ IsAllowed t spec
  transform_iff spec = (
    λ (after, h). (IsAllowed-transform spec after h).0,
    λ allowed. (transformed t spec, transform_allowed t spec allowed),
  )
