-- ===== src/Model/Workload.antt =====
-- common/model/k8scli.go: pods, and the lists and sets that are made of pods.
use board_old.Prelude.{ℕ, Option, String, Bool}
use board_old.Prelude.Go.{Slice}
use board_old.Prelude.Int.{ℤ}
use board_old.Model.Meta.{ObjectMeta}
use board_old.Model.Deployment.{PodSpec, PodTemplateSpec, LabelSelector, Deployment}

pub record PodStatus : Type 0 where
  pub phase : String
  pub reason : String
  pub host_ip : String
  pub pod_ip : String
  pub start_time : Option ℕ

pub record Pod : Type 0 where
  pub object_meta : ObjectMeta
  pub spec : PodSpec
  pub status : PodStatus

pub record PodList : Type 0 where
  pub items : Slice Pod

pub record DeploymentList : Type 0 where
  pub items : Slice Deployment

pub record ReplicaSetCondition : Type 0 where
  pub condition_type : String
  pub status : String
  pub last_transition_time : ℕ
  pub reason : String
  pub message : String

pub record ReplicaSetStatus : Type 0 where
  pub replicas : ℤ
  pub fully_labeled_replicas : ℤ
  pub ready_replicas : ℤ
  pub available_replicas : ℤ
  pub observed_generation : ℤ
  pub conditions : Slice ReplicaSetCondition

pub record ReplicaSetSpec : Type 0 where
  pub replicas : Option ℤ
  pub min_ready_seconds : ℤ
  pub selector : Option LabelSelector
  pub template : PodTemplateSpec

pub record ReplicaSet : Type 0 where
  pub object_meta : ObjectMeta
  pub spec : ReplicaSetSpec
  pub status : ReplicaSetStatus

pub record ReplicaSetList : Type 0 where
  pub items : Slice ReplicaSet

pub record ListOptions : Type 0 where
  pub label_selector : String
  pub field_selector : String
  pub watch : Bool
  pub resource_version : String
  pub timeout_seconds : Option ℤ
