-- ===== src/K8s/Convert/Deployment/RoundTrip.antt =====
-- A deployment on its way to the cluster and back.
use board_old.Prelude.{◌≡◌, refl, sym, ap, ◌∙◌, none, some, List, map}
use board_old.Prelude.Go.{elems, append_each, append_each-none, nil_if_empty, map-inverse}
use mathlib.Core.Option.{some-injective}
use mathlib.Core.Path.{subst}
use board_old.Prelude.Panic.{for_each}
use board_old.Prelude.Panic.Laws.{bind-some_inv}
use board_old.Model.Deployment.{Toleration, PodSpec, Deployment}
use board_old.K8s.Api.Meta.{Quantities}
use board_old.K8s.Api.Workload as Api
use board_old.K8s.Convert.Meta.{from-to_object_meta, from_k8s_object_meta}
use board_old.K8s.Convert.Node.RoundTrip.{elems-nil_if_empty}
use board_old.K8s.Convert.Container.{to_k8s_container}
use board_old.K8s.Convert.Pod.{
  to_k8s_toleration, from_k8s_toleration, to_k8s_tolerations, from_k8s_tolerations, to_affinity,
  zero_affinity, to_k8s_pod_spec, from_k8s_pod_spec,
}
use board_old.K8s.Convert.Deployment.{
  to_k8s_pod_template_spec, from_k8s_pod_template_spec, to_k8s_deployment, from_k8s_deployment,
}

-- A loop into a nil slice, and a loop of its inverse into another.
pub there_and_back {ℓ κ} :
    {A : Type ℓ} {B : Type κ} (g : B → A) (f : A → B)
    → ((x : A) → g (f x) ≡ x)
    → (xs : List A) → append_each g none (elems (append_each f none xs)) ≡ nil_if_empty xs
there_and_back g f h xs =
    ap (λ s. append_each g none (elems s)) (append_each-none f xs)
    ∙ ap (append_each g none) (elems-nil_if_empty (map f xs))
    ∙ append_each-none g (map f xs)
    ∙ ap nil_if_empty (map-inverse g f h xs)

from-to_toleration : (t : Toleration) → from_k8s_toleration (to_k8s_toleration t) ≡ t
unfolding from_k8s_toleration to_k8s_toleration
from-to_toleration t = refl

module _ (Q : Quantities) where
  -- How the specification of a pod reads after it has been sent.
  abbrev pub SpecReadsAsSent : PodSpec → Api.PodSpec Q.Quantity → Type 0
  SpecReadsAsSent spec k =
      let spec' = from_k8s_pod_spec Q k in
      (spec'.node_selector ≡ spec.node_selector)
      × (spec'.node_name ≡ spec.node_name)
      × (spec'.host_network ≡ spec.host_network)
      × (spec'.restart_policy ≡ spec.restart_policy)
      × (spec'.tolerations ≡ nil_if_empty (elems spec.tolerations))
      × (spec'.affinity ≡ zero_affinity)

  from-to_pod_spec :
      (spec : PodSpec) {k : Api.PodSpec Q.Quantity}
      → to_k8s_pod_spec Q spec ≡ some k
      → SpecReadsAsSent spec k
  unfolding to_k8s_pod_spec from_k8s_pod_spec to_k8s_tolerations from_k8s_tolerations
  from-to_pod_spec spec h =
      let (_, _, r) =
        bind-some_inv (for_each (to_k8s_container Q) (elems spec.init_containers)) _ h in
      let (_, _, r') = bind-some_inv (for_each (to_k8s_container Q) (elems spec.containers)) _ r in
      let (_, _, e) = bind-some_inv (to_affinity spec.affinity) _ r' in
      subst (SpecReadsAsSent spec) (some-injective _ _ e) (
        refl,
        refl,
        refl,
        refl,
        there_and_back from_k8s_toleration to_k8s_toleration from-to_toleration
            (elems spec.tolerations),
        refl,
      )

  -- How a deployment reads after it has been sent.
  pub record ReadsAsSent (d : Deployment) (k : Api.Deployment Q.Quantity) : Type 0 where
    pub meta : (from_k8s_deployment Q k).object_meta ≡ d.object_meta
    pub replicas : (from_k8s_deployment Q k).spec.replicas ≡ d.spec.replicas
    pub selector : (from_k8s_deployment Q k).spec.selector ≡ d.spec.selector
    pub paused : (from_k8s_deployment Q k).spec.paused ≡ d.spec.paused
    pub template_meta :
        (from_k8s_deployment Q k).spec.template.object_meta ≡ d.spec.template.object_meta
    pub template_spec : SpecReadsAsSent d.spec.template.spec k.spec.template.spec
    pub status : (from_k8s_deployment Q k).status ≡ d.status

  -- A deployment that is sent without a panic reads back with its metadata, replicas, selector, pause
  -- and status, with the metadata of its pods, and with their node selector, node, network, restart
  -- policy and tolerations (an empty slice of them as nil). The affinity of its pods reads back as
  -- the empty one, whatever it was.
  pub from-to_deployment :
      (d : Deployment) {k : Api.Deployment Q.Quantity}
      → to_k8s_deployment Q (some d) ≡ some (some k)
      → ReadsAsSent d k
  unfolding to_k8s_deployment from_k8s_deployment to_k8s_pod_template_spec
      from_k8s_pod_template_spec
  from-to_deployment d h =
      let (templ, t, e) = bind-some_inv (to_k8s_pod_template_spec Q d.spec.template) _ h in
      let (spec, s, m) = bind-some_inv (to_k8s_pod_spec Q d.spec.template.spec) _ t in
      subst (ReadsAsSent d) (some-injective _ _ (some-injective _ _ e)) (record {
        meta = from-to_object_meta d.object_meta;
        replicas = refl;
        selector = refl;
        paused = refl;
        template_meta =
            ap (λ k. from_k8s_object_meta k.object_meta) (sym (some-injective _ _ m))
            ∙ from-to_object_meta d.spec.template.object_meta;
        template_spec =
            subst (λ k. SpecReadsAsSent d.spec.template.spec k.spec) (some-injective _ _ m)
              (from-to_pod_spec d.spec.template.spec s);
        status = refl;
      })
