-- ===== src/K8s/Api/Workload.antt =====
-- k8s.io/api/core/v1 and k8s.io/api/apps/v1: the placement of pods, pods, deployments and replica sets.
use board_old.Prelude.{Option, String, Bool}
use board_old.Prelude.Go.{Slice, GoMap}
use board_old.Prelude.Int.{ℤ}
use board_old.K8s.Api.Meta.{TypeMeta, Time, ObjectMeta}
use board_old.K8s.Api.Pod.{Volume, Container}

pub record NodeSelectorRequirement : Type 0 where
  pub key : String
  pub operator : String
  pub values : Slice String

pub record NodeSelectorTerm : Type 0 where
  pub match_expressions : Slice NodeSelectorRequirement
  pub match_fields : Slice NodeSelectorRequirement

pub record NodeSelector : Type 0 where
  pub node_selector_terms : Slice NodeSelectorTerm

-- Of the affinity to nodes what is required during scheduling.
pub record NodeAffinity : Type 0 where
  pub required_during_scheduling : Option NodeSelector

pub record LabelSelectorRequirement : Type 0 where
  pub key : String
  pub operator : String
  pub values : Slice String

pub record LabelSelector : Type 0 where
  pub match_labels : GoMap String
  pub match_expressions : Slice LabelSelectorRequirement

pub record PodAffinityTerm : Type 0 where
  pub label_selector : Option LabelSelector
  pub namespaces : Slice String
  pub topology_key : String

-- `PodAffinity` and `PodAntiAffinity`, of which the required terms are written.
pub record PodAffinity : Type 0 where
  pub required_during_scheduling : Slice PodAffinityTerm

pub record Affinity : Type 0 where
  pub node_affinity : Option NodeAffinity
  pub pod_affinity : Option PodAffinity
  pub pod_anti_affinity : Option PodAffinity

pub record Toleration : Type 0 where
  pub key : String
  pub operator : String
  pub value : String
  pub effect : String
  pub toleration_seconds : Option ℤ

pub record PodSpec (Q : Type 0) : Type 0 where
  pub volumes : Slice Volume
  pub init_containers : Slice (Container Q)
  pub containers : Slice (Container Q)
  pub node_selector : GoMap String
  pub node_name : String
  pub host_network : Bool
  pub affinity : Option Affinity
  pub restart_policy : String
  pub tolerations : Slice Toleration

pub record PodTemplateSpec (Q : Type 0) : Type 0 where
  pub object_meta : ObjectMeta
  pub spec : PodSpec Q

pub record PodStatus : Type 0 where
  pub phase : String
  pub reason : String
  pub host_ip : String
  pub pod_ip : String
  pub start_time : Option Time

pub record Pod (Q : Type 0) : Type 0 where
  pub type_meta : TypeMeta
  pub object_meta : ObjectMeta
  pub spec : PodSpec Q
  pub status : PodStatus

pub record PodList (Q : Type 0) : Type 0 where
  pub items : Slice (Pod Q)

pub record DeploymentSpec (Q : Type 0) : Type 0 where
  pub replicas : Option ℤ
  pub selector : Option LabelSelector
  pub template : PodTemplateSpec Q
  pub paused : Bool

pub record DeploymentStatus : Type 0 where
  pub replicas : ℤ
  pub updated_replicas : ℤ
  pub available_replicas : ℤ
  pub unavailable_replicas : ℤ

pub record Deployment (Q : Type 0) : Type 0 where
  pub type_meta : TypeMeta
  pub object_meta : ObjectMeta
  pub spec : DeploymentSpec Q
  pub status : DeploymentStatus

pub record DeploymentList (Q : Type 0) : Type 0 where
  pub items : Slice (Deployment Q)

pub record ReplicaSetCondition : Type 0 where
  pub condition_type : String
  pub status : String
  pub last_transition_time : Time
  pub reason : String
  pub message : String

pub record ReplicaSetStatus : Type 0 where
  pub replicas : ℤ
  pub fully_labeled_replicas : ℤ
  pub ready_replicas : ℤ
  pub available_replicas : ℤ
  pub observed_generation : ℤ
  pub conditions : Slice ReplicaSetCondition

pub record ReplicaSetSpec (Q : Type 0) : Type 0 where
  pub replicas : Option ℤ
  pub min_ready_seconds : ℤ
  pub selector : Option LabelSelector
  pub template : PodTemplateSpec Q

pub record ReplicaSet (Q : Type 0) : Type 0 where
  pub type_meta : TypeMeta
  pub object_meta : ObjectMeta
  pub spec : ReplicaSetSpec Q
  pub status : ReplicaSetStatus

pub record ReplicaSetList (Q : Type 0) : Type 0 where
  pub items : Slice (ReplicaSet Q)

-- k8s.io/apimachinery: the options of a list.
pub record ListOptions : Type 0 where
  pub label_selector : String
  pub field_selector : String
  pub watch : Bool
  pub resource_version : String
  pub timeout_seconds : Option ℤ
