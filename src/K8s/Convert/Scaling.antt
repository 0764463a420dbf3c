-- ===== src/K8s/Convert/Scaling.antt =====
-- convert.go: autoscalers and scales.
pub mod RoundTrip
use board_old.Prelude.{Option, none, some}
use board_old.Model.Scaling.{Scale, HorizontalPodAutoscalerSpec, AutoScale}
use board_old.K8s.Api.Scaling as Api
use board_old.K8s.Convert.Meta.{new_time, time_of, to_k8s_object_meta, from_k8s_object_meta}

pub from_k8s_scale : Api.Scale → Scale
from_k8s_scale scale = record {
  object_meta = from_k8s_object_meta scale.object_meta;
  spec = scale.spec;
  status = scale.status;
}

pub to_k8s_scale : Scale → Api.Scale
to_k8s_scale scale = record {
  type_meta = record { kind = "Scale"; api_version = "v1" };
  object_meta = to_k8s_object_meta scale.object_meta;
  spec = scale.spec;
  status = scale.status;
}

pub from_k8s_auto_scale : Api.HorizontalPodAutoscaler → AutoScale
from_k8s_auto_scale autoscale = record {
  object_meta = from_k8s_object_meta autoscale.object_meta;
  spec = record {
    scale_target_ref = record {
      kind = autoscale.spec.scale_target_ref.kind;
      name = autoscale.spec.scale_target_ref.name;
      api_version = autoscale.spec.scale_target_ref.api_version;
    };
    min_replicas = autoscale.spec.min_replicas;
    max_replicas = autoscale.spec.max_replicas;
    target_cpu_utilization_percentage = autoscale.spec.target_cpu_utilization_percentage;
  };
  status = record {
    observed_generation = autoscale.status.observed_generation;
    last_scale_time = time_of autoscale.status.last_scale_time;
    current_replicas = autoscale.status.current_replicas;
    desired_replicas = autoscale.status.desired_replicas;
    current_cpu_utilization_percentage = autoscale.status.current_cpu_utilization_percentage;
  };
}

-- The spec, which ToK8sAutoScale and UpdateK8sAutoScale write in the same words.
abbrev pub to_k8s_spec : HorizontalPodAutoscalerSpec → Api.HorizontalPodAutoscalerSpec
to_k8s_spec spec = record {
  scale_target_ref = record {
    kind = spec.scale_target_ref.kind;
    name = spec.scale_target_ref.name;
    api_version = spec.scale_target_ref.api_version;
  };
  min_replicas = spec.min_replicas;
  max_replicas = spec.max_replicas;
  target_cpu_utilization_percentage = spec.target_cpu_utilization_percentage;
}

pub to_k8s_auto_scale : AutoScale → Api.HorizontalPodAutoscaler
to_k8s_auto_scale autoscale = record {
  type_meta = record { kind = "AutoScaling"; api_version = "v1" };
  object_meta = to_k8s_object_meta autoscale.object_meta;
  spec = to_k8s_spec autoscale.spec;
  status = record {
    observed_generation = autoscale.status.observed_generation;
    last_scale_time = new_time autoscale.status.last_scale_time;
    current_replicas = autoscale.status.current_replicas;
    desired_replicas = autoscale.status.desired_replicas;
    current_cpu_utilization_percentage = autoscale.status.current_cpu_utilization_percentage;
  };
}

pub update_k8s_auto_scale :
    Option Api.HorizontalPodAutoscaler → Option AutoScale → Option Api.HorizontalPodAutoscaler
update_k8s_auto_scale none autoscale = none
update_k8s_auto_scale (some k8s_hpa) none = some k8s_hpa
update_k8s_auto_scale (some k8s_hpa) (some autoscale) =
    some (record k8s_hpa { spec = to_k8s_spec autoscale.spec })
