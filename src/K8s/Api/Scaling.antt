-- ===== src/K8s/Api/Scaling.antt =====
-- k8s.io/api/autoscaling/v1. The spec and status of a scale are converted by a Go conversion, so
-- that they are the program's types here.
use board_old.Prelude.{Option, String}
use board_old.Prelude.Int.{ℤ}
use board_old.Model.Scaling.{ScaleSpec, ScaleStatusK8s}
use board_old.K8s.Api.Meta.{TypeMeta, Time, ObjectMeta}

pub record Scale : Type 0 where
  pub type_meta : TypeMeta
  pub object_meta : ObjectMeta
  pub spec : ScaleSpec
  pub status : ScaleStatusK8s

pub record CrossVersionObjectReference : Type 0 where
  pub kind : String
  pub name : String
  pub api_version : String

pub record HorizontalPodAutoscalerSpec : Type 0 where
  pub scale_target_ref : CrossVersionObjectReference
  pub min_replicas : Option ℤ
  pub max_replicas : ℤ
  pub target_cpu_utilization_percentage : Option ℤ

pub record HorizontalPodAutoscalerStatus : Type 0 where
  pub observed_generation : Option ℤ
  pub last_scale_time : Option Time
  pub current_replicas : ℤ
  pub desired_replicas : ℤ
  pub current_cpu_utilization_percentage : Option ℤ

pub record HorizontalPodAutoscaler : Type 0 where
  pub type_meta : TypeMeta
  pub object_meta : ObjectMeta
  pub spec : HorizontalPodAutoscalerSpec
  pub status : HorizontalPodAutoscalerStatus
