-- ===== src/Model/Deployment.antt =====
-- common/model/k8scli.go: affinities, tolerations and the deployment of a service.
use board_old.Prelude.{Option, String, Bool}
use board_old.Prelude.Go.{Slice, GoMap}
use board_old.Prelude.Int.{ℤ}
use board_old.Model.Meta.{ObjectMeta}
use board_old.Model.Pod.{Volume, K8sContainer}

pub record NodeSelectorRequirement : Type 0 where
  pub key : String
  pub operator : String
  pub values : Slice String

pub record NodeSelectorTerm : Type 0 where
  pub match_expressions : Slice NodeSelectorRequirement
  pub match_fields : Slice NodeSelectorRequirement

pub record NodeSelector : Type 0 where
  pub node_selector_terms : Slice NodeSelectorTerm

pub record PreferredSchedulingTerm : Type 0 where
  pub weight : ℤ
  pub preference : NodeSelectorTerm

pub record NodeAffinity : Type 0 where
  pub required_during_scheduling : Option NodeSelector
  pub preferred_during_scheduling : Slice PreferredSchedulingTerm

pub record LabelSelectorRequirement : Type 0 where
  pub key : String
  pub operator : String
  pub values : Slice String

pub record LabelSelector : Type 0 where
  pub match_labels : GoMap String
  pub match_expressions : Slice LabelSelectorRequirement

pub record PodAffinityTerm : Type 0 where
  pub label_selector : LabelSelector
  pub namespaces : Slice String
  pub topology_key : String

pub record K8sAffinity : Type 0 where
  pub node_affinity : NodeAffinity
  pub pod_affinity : Slice PodAffinityTerm
  pub pod_anti_affinity : Slice PodAffinityTerm

pub record Toleration : Type 0 where
  pub key : String
  pub operator : String
  pub value : String
  pub effect : String
  pub toleration_seconds : Option ℤ

pub record PodSpec : Type 0 where
  pub volumes : Slice Volume
  pub init_containers : Slice K8sContainer
  pub containers : Slice K8sContainer
  pub node_selector : GoMap String
  pub node_name : String
  pub host_network : Bool
  pub affinity : K8sAffinity
  pub restart_policy : String
  pub tolerations : Slice Toleration

pub record PodTemplateSpec : Type 0 where
  pub object_meta : ObjectMeta
  pub spec : PodSpec

pub record DeploymentSpec : Type 0 where
  pub replicas : ℤ
  pub selector : GoMap String
  pub template : PodTemplateSpec
  pub paused : Bool

pub record DeploymentStatus : Type 0 where
  pub replicas : ℤ
  pub updated_replicas : ℤ
  pub available_replicas : ℤ
  pub unavailable_replicas : ℤ

pub record Deployment : Type 0 where
  pub object_meta : ObjectMeta
  pub spec : DeploymentSpec
  pub status : DeploymentStatus
