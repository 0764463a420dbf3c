-- ===== src/Deploy/View/Cluster.antt =====
-- A draft with one container, marshalled, converted to the cluster's types and back, and shown.
use board_old.Prelude.{
  ◌≡◌, refl, sym, ap, ◌∙◌, Bool, true, false, Option, none, some, String, List, [], ◌∷◌, ◌++◌, map,
  if◌then◌else◌, Bool-cases, inl, inr, append-nil,
}
use mathlib.Core.Option.{some-injective}
use board_old.Prelude.Go.{
  Slice, elems, append_each, append_each-none, nil_if_empty, map-map, elems-append_each,
}
use board_old.Prelude.Text.{str_eq}
use board_old.Prelude.Panic.{for_each, ◌>>=◌}
use board_old.Prelude.Panic.Laws.{bind-some_inv}
use board_old.Model.ServiceConfig.{Container, ConfigServiceStep, EnvStructCont, VolumeMountStruct}
use board_old.Model.Pod.{K8sContainer, Volume, VolumeSource, EnvVar}
use board_old.K8s.Api.Meta.{Quantities}
use board_old.K8s.Api.Pod as Pods
use board_old.K8s.Api.Workload as Api
use board_old.K8s.Convert.Volume.{
  to_k8s_volume, from_k8s_volume, to_k8s_volume_mount, from_k8s_volume_mount,
}
use board_old.K8s.Convert.Container.{
  to_k8s_container, from_k8s_container, to_k8s_container_port, from_k8s_container_port,
  to_k8s_config_map_key_selector, to_k8s_env_var, from_k8s_env_var, from_k8s_security_context,
  parse_resources, resources_text,
}
use board_old.K8s.Convert.Pod.{to_k8s_pod_spec, from_k8s_pod_spec, to_affinity}
use board_old.K8s.Convert.Deployment.{
  to_k8s_deployment, from_k8s_deployment, to_k8s_pod_template_spec, from_k8s_pod_template_spec,
}
use board_old.K8s.Convert.Deployment.RoundTrip.{there_and_back}
use board_old.Deploy.Volumes.{
  host_path_source, nfs_source, claim_source, config_map_source, volume_source, volume_of,
  volumes_of, set_volumes, set_deployment_volumes,
}
use board_old.Deploy.Containers.{
  env_var, env_vars, container_port, requirements, k8s_container, volume_mounts,
  set_deployment_containers,
}
use board_old.Deploy.Pod.{set_deployment_affinity, pod_template, marshal_deployment}
use board_old.Deploy.View.{view_container, get_deployment_containers, shown}
use board_old.Deploy.View.Image.{Lacks}
use board_old.Deploy.View.Mounts.{AllKnown, normal_mount, view_mounts-volume_mounts}
use board_old.Deploy.View.Quantities.{printed, parse_resources-ArePrinted}
use board_old.Deploy.View.RoundTrip.{normal, view_container-k8s_container, elems-nil_if_empty}

nil_again : {A : Type 0} (xs : List A) → nil_if_empty (elems (nil_if_empty xs)) ≡ nil_if_empty xs
nil_again xs = ap nil_if_empty (elems-nil_if_empty xs)

env_var_back : (e : EnvStructCont) → from_k8s_env_var (to_k8s_env_var (env_var e)) ≡ env_var e
unfolding from_k8s_env_var to_k8s_env_var env_var to_k8s_config_map_key_selector
env_var_back e = by_name (str_eq e.env_config_map_name "")
  where
    by_name :
        (b : Bool)
        → let v : EnvVar =
            if b
            then record { name = e.env_name; value = e.env_value; value_from = none }
            else record {
              name = e.env_name;
              value = "";
              value_from = some (record {
                config_map_key_ref = some (record {
                  local_object_reference = record { name = e.env_config_map_name };
                  key = e.env_config_map_key;
                  optional = none;
                });
              });
            } in
          from_k8s_env_var (to_k8s_env_var v) ≡ v
    by_name true = refl
    by_name false = refl

env_back :
    (es : List EnvStructCont)
    → map (λ v. from_k8s_env_var (to_k8s_env_var v)) (env_vars es) ≡ env_vars es
unfolding env_vars
env_back [] = refl
env_back (e ∷ rest) = elim (Bool-cases (str_eq e.env_name "")) [
  | inl h ↦ simp h (env_back rest)
  | inr h ↦ simp h (λ i. env_var_back e i ∷ env_back rest i)
]

-- A loop into a nil slice, and a loop of another function over that.
twice {ℓ κ} :
    {A : Type ℓ} {B : Type κ} (g : B → A) (f : A → B) (xs : List A)
    → append_each g none (elems (append_each f none xs)) ≡ nil_if_empty (map (λ x. g (f x)) xs)
twice g f xs =
    append_each-none g (elems (append_each f none xs))
    ∙ ap (λ ys. nil_if_empty (map g ys)) (elems-append_each f none xs)
    ∙ ap nil_if_empty (map-map g f xs)

volume_back :
    (v : VolumeMountStruct)
    → map (λ x. from_k8s_volume (to_k8s_volume x)) (volume_of v (volume_source v))
      ≡ volume_of v (volume_source v)
unfolding from_k8s_volume to_k8s_volume volume_source
volume_back v =
    by_type (str_eq v.volume_type "hostpath") (str_eq v.volume_type "nfs")
      (str_eq v.volume_type "pvc") (str_eq v.volume_type "configmap")
  where
    by_type :
        (host nfs claim config : Bool)
        → let source : Option VolumeSource =
            if host
            then some (host_path_source v.target_path)
            else if nfs
            then some (nfs_source v.target_storage_service v.target_path)
            else if claim
            then some (claim_source v.target_pvc)
            else if config
            then some (config_map_source v.target_config_map)
            else none in
          map (λ x. from_k8s_volume (to_k8s_volume x)) (volume_of v source) ≡ volume_of v source
    by_type true nfs claim config = refl
    by_type false true claim config = refl
    by_type false false true config = refl
    by_type false false false true = refl
    by_type false false false false = refl

map-append : {A : Type 0} (f : A → A) (xs ys : List A) → map f (xs ++ ys) ≡ map f xs ++ map f ys
map-append f [] ys = refl
map-append f (x ∷ xs) ys = ap (λ l. f x ∷ l) (map-append f xs ys)

volumes_back :
    (vs : List VolumeMountStruct)
    → map (λ v. from_k8s_volume (to_k8s_volume v)) (volumes_of vs) ≡ volumes_of vs
unfolding volumes_of
volumes_back [] = refl
volumes_back (v ∷ rest) =
    map-append (λ x. from_k8s_volume (to_k8s_volume x)) (volume_of v (volume_source v))
      (volumes_of rest)
    ∙ λ i. volume_back v i ++ volumes_back rest i

elems-set_volumes : (ms : Slice VolumeMountStruct) → elems (set_volumes ms) ≡ volumes_of (elems ms)
unfolding set_volumes volumes_of
elems-set_volumes none = refl
elems-set_volumes (some ms) = refl

module _ (Q : Quantities) (join : String → String → String) where
  -- The container as it comes back from the cluster's type.
  container_back :
      (uri : String) (c : Container) {k : Pods.Container Q.Quantity}
      → to_k8s_container Q (k8s_container join uri c) ≡ some k
      → (r : Pods.ResourceRequirements Q.Quantity) × (parse_resources Q (requirements c) ≡ some r)
        × (from_k8s_container Q k ≡ record (k8s_container join uri c) {
          resources = resources_text Q r;
          security_context = from_k8s_security_context none;
        })
  unfolding to_k8s_container from_k8s_container k8s_container
  container_back uri c {k} h =
      let (r, parsed, last) = bind-some_inv (parse_resources Q (requirements c)) _ h in
      (
        r,
        parsed,
        ap (from_k8s_container Q) (sym (some-injective _ _ last)) ∙ λ i.
            record (k8s_container join uri c) {
              ports =
                  (there_and_back from_k8s_container_port to_k8s_container_port port_back
                        (elems (append_each container_port none (elems c.container_port)))
                      ∙ ap (λ ps. nil_if_empty (elems ps))
                          (append_each-none container_port (elems c.container_port))
                      ∙ nil_again (map container_port (elems c.container_port))
                      ∙ sym (append_each-none container_port (elems c.container_port)))
                    i;
              env =
                  (twice from_k8s_env_var to_k8s_env_var
                        (elems (nil_if_empty (env_vars (elems c.env))))
                      ∙ ap (λ es. nil_if_empty (map (λ v. from_k8s_env_var (to_k8s_env_var v)) es))
                          (elems-nil_if_empty (env_vars (elems c.env)))
                      ∙ ap nil_if_empty (env_back (elems c.env)))
                    i;
              volume_mounts =
                  (there_and_back from_k8s_volume_mount to_k8s_volume_mount mount_back
                        (elems (nil_if_empty (volume_mounts join (elems c.volume_mounts))))
                      ∙ nil_again (volume_mounts join (elems c.volume_mounts)))
                    i;
              resources = resources_text Q r;
              security_context = from_k8s_security_context none;
            },
      )
    where
      port_back : (p : _) → from_k8s_container_port (to_k8s_container_port p) ≡ p
      port_back p = refl

      mount_back : (m : _) → from_k8s_volume_mount (to_k8s_volume_mount m) ≡ m
      mount_back m = refl

  -- What is shown of a container: requests and limits as the cluster prints them.
  abbrev pub shown_container : Container → Container
  shown_container c = record (normal c (map (normal_mount join) (elems c.volume_mounts))) {
    cpu_request = printed Q c.cpu_request;
    mem_request = printed Q c.mem_request;
    cpu_limit = printed Q c.cpu_limit;
    mem_limit = printed Q c.mem_limit;
    gpu_limit = printed Q c.gpu_limit;
  }

  container_shown :
      (uri : String) (c : Container) {kc : Pods.Container Q.Quantity}
      → Lacks "/" uri
      → Lacks ":" c.image.image_tag
      → AllKnown (elems c.volume_mounts)
      → to_k8s_container Q (k8s_container join uri c) ≡ some kc
      → view_container (volumes_of (elems c.volume_mounts)) (from_k8s_container Q kc)
        ≡ some (shown_container c)
  container_shown uri c slash colon known h =
      let (r, parsed, back) = container_back uri c h in
      let p = parse_resources-ArePrinted Q c parsed in
      let mounts = map (normal_mount join) (elems c.volume_mounts) in
      ap (view_container (volumes_of (elems c.volume_mounts))) back
      ∙ view_container-k8s_container join uri c (volumes_of (elems c.volume_mounts))
          (resources_text Q r) (from_k8s_security_context none) slash colon
          (view_mounts-volume_mounts join (elems c.volume_mounts) known)
      ∙ λ i. some (record (normal c mounts) {
        cpu_request = p.cpu_request i;
        mem_request = p.mem_request i;
        cpu_limit = p.cpu_limit i;
        mem_limit = p.mem_limit i;
        gpu_limit = p.gpu_limit i;
      })

  one_shown :
      (containers : Slice K8sContainer) (volumes : Slice Volume) (x : K8sContainer)
      (vs : List Volume) {y : Container}
      → containers ≡ some (x ∷ [])
      → elems volumes ≡ vs
      → view_container vs x ≡ some y
      → get_deployment_containers containers volumes ≡ some (some (y ∷ []))
  unfolding get_deployment_containers for_each
  one_shown containers volumes x vs e f h =
      ap (λ cs. get_deployment_containers cs volumes) e
      ∙ ap (λ l. shown (for_each (view_container l) (x ∷ []))) f
      ∙ ap (λ o. shown (do b ← o; some (b ∷ []))) h

  module _ (is_node_group : String → Bool) where
    -- The parts of a pod of one container that was converted.
    template_back :
        (config : ConfigServiceStep) (uri : String) (c : Container) {k : Api.PodSpec Q.Quantity}
        → to_k8s_pod_spec Q
            (pod_template join is_node_group
              (record config { container_list = some (c ∷ []); init_container_list = none })
              uri).spec
          ≡ some k
        → (kc : Pods.Container Q.Quantity) × (to_k8s_container Q (k8s_container join uri c)
            ≡ some kc)
          × ((from_k8s_pod_spec Q k).containers ≡ some (from_k8s_container Q kc ∷ []))
          × (elems (from_k8s_pod_spec Q k).volumes ≡ volumes_of (elems c.volume_mounts))
    unfolding to_k8s_pod_spec from_k8s_pod_spec pod_template set_deployment_containers
        set_deployment_volumes for_each append_each
    template_back config uri c {k} h =
        let g = λ (v : Volume). from_k8s_volume (to_k8s_volume v) in
        let vs = elems (set_volumes c.volume_mounts) ++ [] in
        let same =
          append-nil (elems (set_volumes c.volume_mounts)) ∙ elems-set_volumes c.volume_mounts in
        let (made, e, h₁) =
          bind-some_inv (for_each (to_k8s_container Q) (k8s_container join uri c ∷ [])) _ h in
        let (kc, ek, m) = bind-some_inv (to_k8s_container Q (k8s_container join uri c)) _ e in
        let (affinity, _, last) =
          bind-some_inv (to_affinity (set_deployment_affinity config.affinity_list)) _ h₁ in
        (
          kc,
          ek,
          ap
                (λ (s : Api.PodSpec Q.Quantity).
                  append_each (from_k8s_container Q) none (elems s.containers))
                (sym (some-injective _ _ last))
              ∙ ap (λ xs. append_each (from_k8s_container Q) none (elems (nil_if_empty xs)))
                  (sym (some-injective _ _ m)),
          ap
                (λ (s : Api.PodSpec Q.Quantity).
                  elems (append_each from_k8s_volume none (elems s.volumes)))
                (sym (some-injective _ _ last))
              ∙ ap elems (twice from_k8s_volume to_k8s_volume vs)
              ∙ elems-nil_if_empty (map g vs)
              ∙ ap (map g) same
              ∙ volumes_back (elems c.volume_mounts),
        )

    -- A draft with one container and no init container, with a registry without a slash in its
    -- address, a tag without a colon, and mounts that all have a name and one of the four types: if its
    -- deployment is converted to the cluster's type without a panic, and that is converted back,
    -- GetDeploymentContainers shows one container. It has the name, directory, command and image of the
    -- draft's; its named variables, each in normal form; its ports in 32 bits; its mounts with their
    -- targets; and its requests and limits as the cluster prints them.
    pub get_deployment_containers-marshal_deployment :
        (config : ConfigServiceStep) (uri : String) (c : Container) {k : Api.Deployment Q.Quantity}
        → Lacks "/" uri
        → Lacks ":" c.image.image_tag
        → AllKnown (elems c.volume_mounts)
        → to_k8s_deployment Q (
            marshal_deployment join is_node_group
              (some (record config { container_list = some (c ∷ []); init_container_list = none }))
              uri)
          ≡ some (some k)
        → get_deployment_containers
            (from_k8s_deployment Q k).spec.template.spec.containers
            (from_k8s_deployment Q k).spec.template.spec.volumes
          ≡ some (some (shown_container c ∷ []))
    unfolding marshal_deployment to_k8s_deployment from_k8s_deployment to_k8s_pod_template_spec
        from_k8s_pod_template_spec
    get_deployment_containers-marshal_deployment config uri c {k} slash colon known h =
        let one = record config { container_list = some (c ∷ []); init_container_list = none } in
        let (templ, t, e) =
          bind-some_inv (to_k8s_pod_template_spec Q (pod_template join is_node_group one uri)) _
            h in
        let (spec, s, m) =
          bind-some_inv (to_k8s_pod_spec Q (pod_template join is_node_group one uri).spec) _ t in
        let (kc, made, containers, volumes) = template_back config uri c s in
        let read =
          ap (λ (x : Api.PodTemplateSpec Q.Quantity). from_k8s_pod_spec Q x.spec)
            (some-injective _ _ m)
          ∙ ap (λ (d : Api.Deployment Q.Quantity). from_k8s_pod_spec Q d.spec.template.spec)
              (some-injective _ _ (some-injective _ _ e)) in
        one_shown _ _ (from_k8s_container Q kc) (volumes_of (elems c.volume_mounts))
          (ap (λ x. x.containers) (sym read) ∙ containers)
          (ap (λ x. elems x.volumes) (sym read) ∙ volumes)
          (container_shown uri c slash colon known made)
