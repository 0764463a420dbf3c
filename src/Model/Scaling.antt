-- ===== src/Model/Scaling.antt =====
-- common/model/k8scli.go: horizontal autoscaling, and the scale subresource.
use board_old.Prelude.{ℕ, Option, String}
use board_old.Prelude.Int.{ℤ}
use board_old.Model.Meta.{ObjectMeta}

pub record ScaleSpec : Type 0 where
  pub replicas : ℤ

pub record ScaleStatusK8s : Type 0 where
  pub replicas : ℤ
  pub selector : String

pub record Scale : Type 0 where
  pub object_meta : ObjectMeta
  pub spec : ScaleSpec
  pub status : ScaleStatusK8s

pub record CrossVersionObjectReference : Type 0 where
  pub kind : String
  pub name : String
  pub api_version : String

pub record HorizontalPodAutoscalerSpec : Type 0 where
  pub scale_target_ref : CrossVersionObjectReference
  pub min_replicas : Option ℤ
  pub max_replicas : ℤ
  pub target_cpu_utilization_percentage : Option ℤ

pub record HorizontalPodAutoscalerStatus : Type 0 where
  pub observed_generation : Option ℤ
  pub last_scale_time : Option ℕ
  pub current_replicas : ℤ
  pub desired_replicas : ℤ
  pub current_cpu_utilization_percentage : Option ℤ

pub record AutoScale : Type 0 where
  pub object_meta : ObjectMeta
  pub spec : HorizontalPodAutoscalerSpec
  pub status : HorizontalPodAutoscalerStatus
