-- ===== src/Deploy/Cluster.antt =====
-- From a draft to the cluster's own types: MarshalDeployment, and then ToK8sDeployment.
use board_old.K8s.Convert.Meta.{to_k8s_object_meta}
use board_old.Prelude.{
  arith, ◌≡◌, refl, sym, ap, ◌∙◌, ◌⊎◌, inl, inr, Bool, true, false, Option, none, some, String,
  List, [], map, if◌then◌else◌,
}
use mathlib.Core.Path.{subst}
use board_old.Prelude.Go.{Slice, elems, lookup, insert, lookup-insert}
use board_old.Prelude.Text.{str_eq}
use board_old.Prelude.Go.{elems-append_each}
use board_old.Prelude.Int.{to_int32}
use board_old.Prelude.Panic.{for_each, index}
use board_old.Prelude.Panic.Laws.{
  bind-some, for_each-map, for_each_all, bind-none, bind-none_first, AnyOf, for_each_any,
}
use board_old.Prelude.Effect.Laws.{AllOf}
use board_old.Model.ServiceConfig.{Container, ConfigServiceStep, Affinity}
use board_old.Model.Deployment.{PodAffinityTerm}
use board_old.K8s.Convert.Pod.{to_k8s_affinity_term, to_pod_affinity, to_affinity, to_k8s_pod_spec}
use board_old.K8s.Convert.Deployment.{
  to_k8s_deployment, to_k8s_pod_template_spec, from_k8s_selector,
}
use board_old.Deploy.Pod.{affinity_term, set_deployment_affinity, pod_template, marshal_deployment}
use board_old.Deploy.Pod.Placement.{set_deployment_affinity_splits, with_flag}
use board_old.K8s.Api.Meta.{Quantities}
use board_old.K8s.Api.Pod as Pods
use board_old.K8s.Api.Workload as Api
use board_old.K8s.Convert.Container.{put_parsed, parse_resources, to_k8s_container}
use board_old.Deploy.Containers.{set_if, requirements, k8s_container, set_deployment_containers}

pub lookup-set_if :
    (j k v : String) (m : List (String × String))
    → lookup j (set_if k v m)
      ≡ (if str_eq k j then (if str_eq v "" then lookup j m else some v) else lookup j m)
lookup-set_if j k v m = ground (arith, lookup-insert k j v m)

-- What is looked up where a text has been set.
abbrev pub text_or_none : String → Option String
text_or_none t = if str_eq t "" then none else some t

-- The texts of a map that was made of a text for the processor, one for the memory and one for the
-- graphics cards.
pub cpu_text :
    (c m : String) → lookup "cpu" (set_if "memory" m (set_if "cpu" c [])) ≡ text_or_none c
unfolding lookup
cpu_text c m = lookup-set_if "cpu" "memory" m (set_if "cpu" c []) ∙ lookup-set_if "cpu" "cpu" c []

pub memory_text :
    (c m : String) → lookup "memory" (set_if "memory" m (set_if "cpu" c [])) ≡ text_or_none m
unfolding lookup
memory_text c m =
    lookup-set_if "memory" "memory" m (set_if "cpu" c [])
    ∙ ap (λ o. if str_eq m "" then o else some m) (lookup-set_if "memory" "cpu" c [])

pub gpu_text :
    (c m g : String)
    → lookup "nvidia.com/gpu" (set_if "nvidia.com/gpu" g (set_if "memory" m (set_if "cpu" c [])))
      ≡ text_or_none g
unfolding lookup
gpu_text c m g =
    lookup-set_if "nvidia.com/gpu" "nvidia.com/gpu" g (set_if "memory" m (set_if "cpu" c []))
    ∙ ap (λ o. if str_eq g "" then o else some g)
        (lookup-set_if "nvidia.com/gpu" "memory" m (set_if "cpu" c [])
          ∙ lookup-set_if "nvidia.com/gpu" "cpu" c [])

module _ (Q : Quantities) where
  -- A text that is left empty, or that the package of quantities can parse.
  abbrev pub IsQuantity : String → Type 0
  IsQuantity t = (str_eq t "" ≡ true) ⊎ ((q : Q.Quantity) × (Q.must_parse t ≡ some q))

  put_parsed_lem :
      (key t : String) (dst : List (String × Q.Quantity))
      → IsQuantity t
      → (d : List (String × Q.Quantity)) × (put_parsed Q key (text_or_none t) dst ≡ some d)
  put_parsed_lem key t dst (inl e) = (dst, rw e refl)
  put_parsed_lem key t dst (inr (q, e)) = by_text (str_eq t "") refl
    where
      by_text :
          (b : Bool)
          → str_eq t "" ≡ b
          → (d : List (String × Q.Quantity)) × (put_parsed Q key (text_or_none t) dst ≡ some d)
      by_text true h = (dst, rw h refl)
      by_text false h = (insert key q dst, rw (h, e) refl)

  -- The texts of a container's requests and limits.
  pub record HasQuantities (cont : Container) : Type 0 where
    pub cpu_request : IsQuantity cont.cpu_request
    pub mem_request : IsQuantity cont.mem_request
    pub cpu_limit : IsQuantity cont.cpu_limit
    pub mem_limit : IsQuantity cont.mem_limit
    pub gpu_limit : IsQuantity cont.gpu_limit

  parse-requirements :
      (cont : Container)
      → HasQuantities cont
      → (r : Pods.ResourceRequirements Q.Quantity) × (parse_resources Q (requirements cont)
          ≡ some r)
  unfolding parse_resources requirements lookup insert
  parse-requirements cont h =
      let (a, ea) = put_parsed_lem "cpu" cont.cpu_request [] h.cpu_request in
      let (b, eb) = put_parsed_lem "memory" cont.mem_request a h.mem_request in
      let (c, ec) = put_parsed_lem "cpu" cont.cpu_limit [] h.cpu_limit in
      let (d, ed) = put_parsed_lem "memory" cont.mem_limit c h.mem_limit in
      let (e, ee) = put_parsed_lem "nvidia.com/gpu" cont.gpu_limit d h.gpu_limit in
      (
        record { limits = some e; requests = some b },
        bind-some _ _
            (ap (λ o. put_parsed Q "cpu" o []) (cpu_text cont.cpu_request cont.mem_request) ∙ ea)
            (bind-some _ _
              (ap (λ o. put_parsed Q "memory" o a) (memory_text cont.cpu_request cont.mem_request)
                ∙ eb)
              (bind-some _ _
                (ap (λ o. put_parsed Q "cpu" o [])
                    (lookup-set_if "cpu" "nvidia.com/gpu" cont.gpu_limit
                        (set_if "memory" cont.mem_limit (set_if "cpu" cont.cpu_limit []))
                      ∙ cpu_text cont.cpu_limit cont.mem_limit)
                  ∙ ec)
                (bind-some _ _
                  (ap (λ o. put_parsed Q "memory" o c)
                      (lookup-set_if "memory" "nvidia.com/gpu" cont.gpu_limit
                          (set_if "memory" cont.mem_limit (set_if "cpu" cont.cpu_limit []))
                        ∙ memory_text cont.cpu_limit cont.mem_limit)
                    ∙ ed)
                  (bind-some _ _
                    (ap (λ o. put_parsed Q "nvidia.com/gpu" o d)
                        (gpu_text cont.cpu_limit cont.mem_limit cont.gpu_limit)
                      ∙ ee)
                    refl)))),
      )

  to_k8s_container-k8s_container :
      (join : String → String → String) (uri : String) (cont : Container)
      → HasQuantities cont
      → (c : Pods.Container Q.Quantity) × (to_k8s_container Q (k8s_container join uri cont)
          ≡ some c)
  unfolding to_k8s_container k8s_container
  to_k8s_container-k8s_container join uri cont h =
      let (r, e) = parse-requirements cont h in (_, bind-some _ _ e refl)

  containers_convert :
      (join : String → String → String) (uri : String) (containers : Slice Container)
      → AllOf HasQuantities (elems containers)
      → (cs : List (Pods.Container Q.Quantity)) × (for_each
            (to_k8s_container Q)
            (elems (set_deployment_containers join containers uri))
          ≡ some cs)
  unfolding set_deployment_containers for_each
  containers_convert join uri none h = ([], refl)
  containers_convert join uri (some containers) h =
      subst
        (λ xs.
          (cs : List (Pods.Container Q.Quantity)) × (for_each (to_k8s_container Q) xs ≡ some cs))
        (sym (elems-append_each (k8s_container join uri) (some []) containers))
        (for_each_all (to_k8s_container Q) (k8s_container join uri) HasQuantities
          (to_k8s_container-k8s_container join uri) containers h)

affinity_term_converts :
    (a : Affinity) → (t : Api.PodAffinityTerm) × (to_k8s_affinity_term (affinity_term a) ≡ some t)
unfolding to_k8s_affinity_term affinity_term index
affinity_term_converts a = (_, refl)

terms_convert :
    (terms : Slice PodAffinityTerm) (as_ : List Affinity)
    → elems terms ≡ map affinity_term as_
    → (p : Option Api.PodAffinity) × (to_pod_affinity terms ≡ some p)
unfolding to_pod_affinity
terms_convert none as_ e = (none, refl)
terms_convert (some ts) as_ e =
    let (bs, h) = for_each-map to_k8s_affinity_term affinity_term affinity_term_converts as_ in
    (_, bind-some _ _ (ap (for_each to_k8s_affinity_term) e ∙ h) refl)

affinity_converts :
    (affinities : Slice Affinity)
    → (a : Api.Affinity) × (to_affinity (set_deployment_affinity affinities) ≡ some a)
unfolding to_affinity
affinity_converts affinities =
    let (near, apart) = set_deployment_affinity_splits affinities in
    let k = set_deployment_affinity affinities in
    let (p, ep) = terms_convert k.pod_affinity (with_flag true (elems affinities)) near in
    let (q, eq) = terms_convert k.pod_anti_affinity (with_flag false (elems affinities)) apart in
    (
      _,
      bind-some (to_pod_affinity k.pod_affinity) _ ep
          (bind-some (to_pod_affinity k.pod_anti_affinity) _ eq refl),
    )

-- What the cluster gets of a draft.
pub record IsDeployed (Q : Quantities) (config : ConfigServiceStep) (d : Api.Deployment Q.Quantity)
    : Type 0 where
  pub named : d.object_meta.name ≡ config.service_name
  pub placed : d.object_meta.namespace ≡ config.project_name
  pub replicas : d.spec.replicas ≡ some (to_int32 config.instance_count)
  pub selects : from_k8s_selector d.spec.selector ≡ d.spec.template.object_meta.labels

module _ (Q : Quantities) (join : String → String → String) (is_node_group : String → Bool) where
  pod_template_converts :
      (config : ConfigServiceStep) (uri : String)
      → AllOf (HasQuantities Q) (elems config.container_list)
      → AllOf (HasQuantities Q) (elems config.init_container_list)
      → (spec : Api.PodSpec Q.Quantity) × (to_k8s_pod_spec Q
            (pod_template join is_node_group config uri).spec
          ≡ some spec)
  unfolding pod_template to_k8s_pod_spec
  pod_template_converts config uri all all_init =
      let (init, ei) = containers_convert Q join uri config.init_container_list all_init in
      let (cs, ec) = containers_convert Q join uri config.container_list all in
      let (a, ea) = affinity_converts config.affinity_list in
      (_, bind-some _ _ ei (bind-some _ _ ec (bind-some _ _ ea refl)))

  -- The deployment of a draft whose containers have only empty texts and texts of quantities as
  -- requests and limits is converted to the cluster's type without a panic. It has the draft's name,
  -- namespace and number of instances in 32 bits, and selects the labels of its own pods.
  pub to_k8s-marshal_deployment :
      (config : ConfigServiceStep) (uri : String)
      → AllOf (HasQuantities Q) (elems config.container_list)
      → AllOf (HasQuantities Q) (elems config.init_container_list)
      → (d : Api.Deployment Q.Quantity) × (to_k8s_deployment Q
            (marshal_deployment join is_node_group (some config) uri)
          ≡ some (some d))
        × IsDeployed Q config d
  unfolding marshal_deployment pod_template to_k8s_deployment to_k8s_pod_template_spec
      to_k8s_pod_spec to_k8s_object_meta from_k8s_selector
  to_k8s-marshal_deployment config uri all all_init =
      let (spec, e) = pod_template_converts config uri all all_init in
      (
        _,
        bind-some (to_k8s_pod_template_spec Q (pod_template join is_node_group config uri)) _
            (bind-some (to_k8s_pod_spec Q (pod_template join is_node_group config uri).spec) _ e
              refl)
            refl,
        record { named = refl; placed = refl; replicas = refl; selects = refl },
      )

  -- A request for the processor that is not empty and that the package of quantities cannot parse.
  abbrev pub HasBadRequest : Container → Type 0
  HasBadRequest cont = (str_eq cont.cpu_request "" ≡ false) × (Q.must_parse cont.cpu_request ≡ none)

  bad_request_panics :
      (uri : String) (cont : Container)
      → HasBadRequest cont
      → to_k8s_container Q (k8s_container join uri cont) ≡ none
  unfolding to_k8s_container k8s_container parse_resources requirements
  bad_request_panics uri cont (given, bad) = bind-none_first _ _ (
      bind-none_first _ _ (
        ap (λ o. put_parsed Q "cpu" o []) (cpu_text cont.cpu_request cont.mem_request)
        ∙ rw (given, bad) refl))

  bad_containers_panic :
      (uri : String) (containers : Slice Container)
      → AnyOf HasBadRequest (elems containers)
      → for_each (to_k8s_container Q) (elems (set_deployment_containers join containers uri)) ≡ none
  unfolding set_deployment_containers
  bad_containers_panic uri none any = elim any [ ]
  bad_containers_panic uri (some containers) any =
      ap (for_each (to_k8s_container Q))
        (elems-append_each (k8s_container join uri) (some []) containers)
      ∙ for_each_any (to_k8s_container Q) (k8s_container join uri) HasBadRequest
          (bad_request_panics uri) containers any

  -- The deployment of a draft with a container whose request for the processor is not empty and is no
  -- text of a quantity panics when it is converted to the cluster's type, whatever the rest of it is.
  pub to_k8s-marshal_deployment_panics :
      (config : ConfigServiceStep) (uri : String)
      → AnyOf HasBadRequest (elems config.container_list)
      → to_k8s_deployment Q (marshal_deployment join is_node_group (some config) uri) ≡ none
  unfolding marshal_deployment pod_template to_k8s_deployment to_k8s_pod_template_spec
      to_k8s_pod_spec
  to_k8s-marshal_deployment_panics config uri any = bind-none_first _ _ (
      bind-none_first _ _ (
        bind-none _ _
          λ init. bind-none_first _ _ (bad_containers_panic uri config.container_list any)))
