-- ===== src/Deploy/Pod/Placement.antt =====
-- Where the pods of a service go, and that its service finds them.
use mathlib.Core.Option.{some-injective}
use mathlib.Core.Path.{subst}
use board_old.Prelude.{String, Bool, true, false, some, ◌≡◌, refl, ◌∙◌, sym, inl, inr}
use board_old.Prelude.{
  List, [], ◌∷◌, ◌++◌, map, if◌then◌else◌, Bool-cases, append-nil, append_assoc,
}
use board_old.Prelude.Go.{Slice, elems, append}
use board_old.Prelude.Int.{pos, eq_ℤ, to_int32}
use board_old.Model.Service.{Service}
use board_old.Model.ServiceConfig.{Affinity, ConfigServiceStep}
use board_old.Model.Deployment.{K8sAffinity, Deployment}
use board_old.Deploy.Service.{marshal_service}
use board_old.Deploy.Pod.{
  affinity_term, add_affinities, set_deployment_affinity, no_affinity, marshal_deployment,
  pod_template,
}

-- The affinities with the given flag: with 0, and with any other.
abbrev pub with_flag : Bool → List Affinity → List Affinity
with_flag b [] = []
with_flag true (a ∷ rest) =
    if eq_ℤ a.anti_flag (pos 0) then a ∷ with_flag true rest else with_flag true rest
with_flag false (a ∷ rest) =
    if eq_ℤ a.anti_flag (pos 0) then with_flag false rest else a ∷ with_flag false rest

-- Both lists of terms, on from what is there.
abbrev Splits : K8sAffinity → List Affinity → K8sAffinity → Type 0
Splits k as_ k' =
    (elems k'.pod_affinity ≡ elems k.pod_affinity ++ map affinity_term (with_flag true as_))
    × (elems k'.pod_anti_affinity
        ≡ elems k.pod_anti_affinity ++ map affinity_term (with_flag false as_))

add_affinities-Splits :
    (k : K8sAffinity) (as_ : List Affinity) → Splits k as_ (add_affinities k as_)
unfolding add_affinities
add_affinities-Splits k [] = (sym (append-nil _), sym (append-nil _))
add_affinities-Splits k (a ∷ rest) = elim (Bool-cases (eq_ℤ a.anti_flag (pos 0))) [
  | inl h ↦ simp h (
      let k' = record k { pod_affinity = append k.pod_affinity (affinity_term a) } in
      let (together, apart) = add_affinities-Splits k' rest in
      (together ∙ append_assoc (elems k.pod_affinity) (affinity_term a ∷ []) _, apart))
  | inr h ↦ simp h (
      let k' = record k { pod_anti_affinity = append k.pod_anti_affinity (affinity_term a) } in
      let (together, apart) = add_affinities-Splits k' rest in
      (together, apart ∙ append_assoc (elems k.pod_anti_affinity) (affinity_term a ∷ []) _))
]

-- The terms of the pod affinity are those of the draft's affinities with flag 0, those of the
-- anti-affinity those with any other, both in the draft's order.
pub set_deployment_affinity_splits :
    (affinities : Slice Affinity)
    → let k = set_deployment_affinity affinities in
      (elems k.pod_affinity ≡ map affinity_term (with_flag true (elems affinities)))
      × (elems k.pod_anti_affinity ≡ map affinity_term (with_flag false (elems affinities)))
unfolding set_deployment_affinity
set_deployment_affinity_splits affinities = add_affinities-Splits no_affinity (elems affinities)

-- How a deployment goes with the service of the same draft.
abbrev pub Matches : ConfigServiceStep → Service → Deployment → Type 0
Matches config s d =
    (s.selector ≡ d.spec.template.object_meta.labels)
    × (d.spec.selector ≡ d.spec.template.object_meta.labels)
    × (d.object_meta.name ≡ s.object_meta.name)
    × (d.object_meta.namespace ≡ config.project_name)
    × (d.spec.replicas ≡ to_int32 config.instance_count)

marshal_service_selector :
    (config : ConfigServiceStep) {s : Service}
    → marshal_service (some config) ≡ some s
    → (s.selector ≡ some (("app", config.service_name) ∷ []))
      × (s.object_meta.name ≡ config.service_name)
unfolding marshal_service
marshal_service_selector config e =
    subst
      (λ (s : Service).
        (s.selector ≡ some (("app", config.service_name) ∷ []))
        × (s.object_meta.name ≡ config.service_name))
      (some-injective _ _ e) (refl, refl)

-- The service and the deployment of one draft have one name, both select the labels of the
-- deployment's pods, and the deployment is in the project's namespace, with the draft's number of
-- instances in 32 bits.
pub marshal_service-marshal_deployment :
    (join : String → String → String) (is_node_group : String → Bool) (uri : String)
    (config : ConfigServiceStep) {s : Service} {d : Deployment}
    → marshal_service (some config) ≡ some s
    → marshal_deployment join is_node_group (some config) uri ≡ some d
    → Matches config s d
unfolding marshal_deployment pod_template
marshal_service-marshal_deployment join is_node_group uri config {s} {d} e f =
    let (selector, name) = marshal_service_selector config e in
    subst (Matches config s) (some-injective _ _ f) (selector, refl, sym name, refl, refl)
