-- ===== src/Deploy/Pod.antt =====
-- serviceconfig.go: the placement of a service's pods, and MarshalDeployment.
pub mod Placement
use board_old.Prelude.{String, Bool, true, false, Option, none, some, List, [], ◌∷◌, if◌then◌else◌}
use board_old.Prelude.Go.{Slice, GoMap, elems, append}
use board_old.Prelude.Int.{ℤ, pos, eq_ℤ, to_int32}
use board_old.Prelude.Text.{str_eq}
use board_old.Model.ServiceConfig.{Affinity, ConfigServiceStep}
use board_old.Model.Pod.{Volume, K8sContainer}
use board_old.Model.Deployment.{
  K8sAffinity, PodAffinityTerm, Toleration, PodTemplateSpec, Deployment,
}
use board_old.Deploy.Service.{named}
use board_old.Deploy.Volumes.{set_deployment_volumes, add_init_container_volumes}
use board_old.Deploy.Containers.{set_deployment_containers}

abbrev pub no_affinity : K8sAffinity
no_affinity = record {
  node_affinity = record { required_during_scheduling = none; preferred_during_scheduling = none };
  pod_affinity = none;
  pod_anti_affinity = none;
}

unfoldable pub affinity_term : Affinity → PodAffinityTerm
affinity_term affinity = record {
  label_selector = record {
    match_labels = none;
    match_expressions =
        some (record { key = "app"; operator = "In"; values = affinity.service_names } ∷ []);
  };
  namespaces = none;
  topology_key = "kubernetes.io/hostname";
}

-- The loop over the affinities.
unfoldable pub add_affinities : K8sAffinity → List Affinity → K8sAffinity
unfolding affinity_term
add_affinities k [] = k
add_affinities k (a ∷ rest) =
    add_affinities
      (if eq_ℤ a.anti_flag (pos 0)
        then record k { pod_affinity = append k.pod_affinity (affinity_term a) }
        else record k { pod_anti_affinity = append k.pod_anti_affinity (affinity_term a) })
      rest

unfoldable pub set_deployment_affinity : Slice Affinity → K8sAffinity
unfolding add_affinities
set_deployment_affinity affinities = add_affinities no_affinity (elems affinities)

abbrev pub service_type_edge_computing : ℤ
service_type_edge_computing = pos 7

abbrev pub edge_toleration : Toleration
edge_toleration = record {
  key = "edge";
  operator = "Exists";
  value = "";
  effect = "";
  toleration_seconds = none;
}

abbrev pub tolerations : ℤ → Slice Toleration
tolerations service_type =
    if eq_ℤ service_type service_type_edge_computing then some (edge_toleration ∷ []) else none

-- `if podTemplate.Spec.InitContainers != nil { ... }`
abbrev pub with_init_volumes : ConfigServiceStep → Slice K8sContainer → Slice Volume → Slice Volume
with_init_volumes config none volumes = volumes
with_init_volumes config (some made) volumes =
    add_init_container_volumes config.init_container_list volumes

-- `is_node_group` asks the database for a group of the name with an id that is not 0, an error being
-- none; `join` is Go's `filepath.Join`.
module _ (join : String → String → String) (is_node_group : String → Bool) where
  unfoldable pub set_deployment_node_selector : String → GoMap String
  set_deployment_node_selector name =
      if str_eq name ""
      then none
      else if is_node_group name
      then some ((name, "true") ∷ [])
      else some (("kubernetes.io/hostname", name) ∷ [])

  unfoldable pub pod_template : ConfigServiceStep → String → PodTemplateSpec
  unfolding set_deployment_node_selector
  pod_template config registry_uri =
      let init = set_deployment_containers join config.init_container_list registry_uri in
      record {
        object_meta = record (named config.service_name) {
          labels = some (("app", config.service_name) ∷ []);
        };
        spec = record {
          volumes = with_init_volumes config init (set_deployment_volumes config.container_list);
          init_containers = init;
          containers = set_deployment_containers join config.container_list registry_uri;
          node_selector = set_deployment_node_selector config.node_selector;
          node_name = "";
          host_network = false;
          affinity = set_deployment_affinity config.affinity_list;
          restart_policy = "";
          tolerations = tolerations config.service_type;
        };
      }

  unfoldable pub marshal_deployment : Option ConfigServiceStep → String → Option Deployment
  unfolding pod_template
  marshal_deployment none registry_uri = none
  marshal_deployment (some config) registry_uri = some (record {
    object_meta = record (named config.service_name) { namespace = config.project_name };
    spec = record {
      replicas = to_int32 config.instance_count;
      selector = some (("app", config.service_name) ∷ []);
      template = pod_template config registry_uri;
      paused = false;
    };
    status = record {
      replicas = pos 0;
      updated_replicas = pos 0;
      available_replicas = pos 0;
      unavailable_replicas = pos 0;
    };
  })
