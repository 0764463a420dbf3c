-- ===== src/K8s/Convert/Pod.antt =====
-- convert.go: the placement of pods, and pods. `none` of the conversions to the cluster's types is a
-- panic.
use board_old.Prelude.{Option, none, some, [], ◌∷◌}
use board_old.Prelude.Go.{Slice, elems, append_each, nil_if_empty}
use board_old.Prelude.Panic.{◌>>=◌, for_each, index}
use board_old.Model.Deployment.{
  NodeSelectorRequirement, NodeSelectorTerm, NodeSelector, PodAffinityTerm, K8sAffinity, Toleration,
  PodSpec,
}
use board_old.Model.Workload.{Pod, PodList, ListOptions}
use board_old.K8s.Api.Meta.{Quantities}
use board_old.K8s.Api.Workload as Api
use board_old.K8s.Convert.Meta.{to_k8s_object_meta, from_k8s_object_meta, new_time, time_of}
use board_old.K8s.Convert.Volume.{to_k8s_volume, from_k8s_volume}
use board_old.K8s.Convert.Container.{to_k8s_container, from_k8s_container}

unfoldable pub to_k8s_toleration : Toleration → Api.Toleration
to_k8s_toleration tol = record {
  key = tol.key;
  operator = tol.operator;
  value = tol.value;
  effect = tol.effect;
  toleration_seconds = tol.toleration_seconds;
}

unfoldable pub from_k8s_toleration : Api.Toleration → Toleration
from_k8s_toleration tol = record {
  key = tol.key;
  operator = tol.operator;
  value = tol.value;
  effect = tol.effect;
  toleration_seconds = tol.toleration_seconds;
}

-- The tests against nil change nothing: the loops leave a nil slice nil.
unfoldable pub to_k8s_tolerations : Slice Toleration → Slice Api.Toleration
unfolding to_k8s_toleration
to_k8s_tolerations tols = append_each to_k8s_toleration none (elems tols)

unfoldable pub from_k8s_tolerations : Slice Api.Toleration → Slice Toleration
unfolding from_k8s_toleration
from_k8s_tolerations tols = append_each from_k8s_toleration none (elems tols)

unfoldable pub to_requirement : NodeSelectorRequirement → Api.NodeSelectorRequirement
to_requirement r = record { key = r.key; operator = r.operator; values = r.values }

unfoldable pub to_k8s_node_selector_requirements :
    Slice NodeSelectorRequirement → Slice Api.NodeSelectorRequirement
unfolding to_requirement
to_k8s_node_selector_requirements rs = append_each to_requirement none (elems rs)

-- The fields to match are left out.
unfoldable pub to_term : NodeSelectorTerm → Api.NodeSelectorTerm
unfolding to_k8s_node_selector_requirements
to_term term = record {
  match_expressions = to_k8s_node_selector_requirements term.match_expressions;
  match_fields = none;
}

unfoldable pub to_k8s_node_selector_terms : Slice NodeSelectorTerm → Slice Api.NodeSelectorTerm
unfolding to_term
to_k8s_node_selector_terms terms = append_each to_term none (elems terms)

-- `MatchExpressions[0]`, which panics where there is none; the others are left out.
unfoldable pub to_k8s_affinity_term : PodAffinityTerm → Option Api.PodAffinityTerm
to_k8s_affinity_term term = do
  first ← index (elems term.label_selector.match_expressions) 0
  some (record {
    label_selector = some (record {
      match_labels = none;
      match_expressions =
          some (record { key = first.key; operator = first.operator; values = first.values } ∷ []);
    });
    namespaces = term.namespaces;
    topology_key = term.topology_key;
  })

-- `if terms != nil { ... }` around the loop over the terms
unfoldable pub to_pod_affinity : Slice PodAffinityTerm → Option (Option Api.PodAffinity)
unfolding to_k8s_affinity_term
to_pod_affinity none = some none
to_pod_affinity (some terms) = do
  converted ← for_each to_k8s_affinity_term terms
  some (some (record { required_during_scheduling = nil_if_empty converted }))

unfoldable pub to_node_affinity : Option NodeSelector → Option Api.NodeAffinity
unfolding to_k8s_node_selector_terms
to_node_affinity none = none
to_node_affinity (some selector) = some (record {
  required_during_scheduling =
      some
        (record { node_selector_terms = to_k8s_node_selector_terms selector.node_selector_terms });
})

unfoldable pub to_affinity : K8sAffinity → Option Api.Affinity
unfolding to_pod_affinity to_node_affinity
to_affinity affinity = do
  near ← to_pod_affinity affinity.pod_affinity
  apart ← to_pod_affinity affinity.pod_anti_affinity
  some (record {
    node_affinity = to_node_affinity affinity.node_affinity.required_during_scheduling;
    pod_affinity = near;
    pod_anti_affinity = apart;
  })

unfoldable pub to_k8s_list_options : ListOptions → Api.ListOptions
to_k8s_list_options opts = record {
  label_selector = opts.label_selector;
  field_selector = opts.field_selector;
  watch = opts.watch;
  resource_version = opts.resource_version;
  timeout_seconds = opts.timeout_seconds;
}

-- The zero value of an affinity.
abbrev pub zero_affinity : K8sAffinity
zero_affinity = record {
  node_affinity = record { required_during_scheduling = none; preferred_during_scheduling = none };
  pod_affinity = none;
  pod_anti_affinity = none;
}

module _ (Q : Quantities) where
  unfoldable pub to_k8s_pod_spec : PodSpec → Option (Api.PodSpec Q.Quantity)
  unfolding to_affinity to_k8s_tolerations
  to_k8s_pod_spec spec = do
    init ← for_each (to_k8s_container Q) (elems spec.init_containers)
    containers ← for_each (to_k8s_container Q) (elems spec.containers)
    affinity ← to_affinity spec.affinity
    some (record {
      volumes = append_each to_k8s_volume none (elems spec.volumes);
      init_containers = nil_if_empty init;
      containers = nil_if_empty containers;
      node_selector = spec.node_selector;
      node_name = spec.node_name;
      host_network = spec.host_network;
      affinity = some affinity;
      restart_policy = spec.restart_policy;
      tolerations = to_k8s_tolerations spec.tolerations;
    })

  -- The affinity is not read.
  unfoldable pub from_k8s_pod_spec : Api.PodSpec Q.Quantity → PodSpec
  unfolding from_k8s_tolerations
  from_k8s_pod_spec spec = record {
    volumes = append_each from_k8s_volume none (elems spec.volumes);
    init_containers = append_each (from_k8s_container Q) none (elems spec.init_containers);
    containers = append_each (from_k8s_container Q) none (elems spec.containers);
    node_selector = spec.node_selector;
    node_name = spec.node_name;
    host_network = spec.host_network;
    affinity = zero_affinity;
    restart_policy = spec.restart_policy;
    tolerations = from_k8s_tolerations spec.tolerations;
  }

  -- A nil pod gives nil, which is `some none`; a panic is `none`.
  unfoldable pub to_k8s_pod : Option Pod → Option (Option (Api.Pod Q.Quantity))
  unfolding to_k8s_pod_spec
  to_k8s_pod none = some none
  to_k8s_pod (some pod) = do
    spec ← to_k8s_pod_spec pod.spec
    some (
        some (record {
          type_meta = record { kind = "Pod"; api_version = "v1" };
          object_meta = to_k8s_object_meta pod.object_meta;
          spec = spec;
          status = record {
            phase = pod.status.phase;
            reason = pod.status.reason;
            host_ip = pod.status.host_ip;
            pod_ip = pod.status.pod_ip;
            start_time = new_time pod.status.start_time;
          };
        }))

  unfoldable pub from_k8s_pod : Api.Pod Q.Quantity → Pod
  unfolding from_k8s_pod_spec
  from_k8s_pod pod = record {
    object_meta = from_k8s_object_meta pod.object_meta;
    spec = from_k8s_pod_spec pod.spec;
    status = record {
      phase = pod.status.phase;
      reason = pod.status.reason;
      host_ip = pod.status.host_ip;
      pod_ip = pod.status.pod_ip;
      start_time = time_of pod.status.start_time;
    };
  }

  unfoldable pub from_k8s_pod_list : Option (Api.PodList Q.Quantity) → Option PodList
  unfolding from_k8s_pod
  from_k8s_pod_list none = none
  from_k8s_pod_list (some pod_list) =
      some (record { items = append_each from_k8s_pod (some []) (elems pod_list.items) })
