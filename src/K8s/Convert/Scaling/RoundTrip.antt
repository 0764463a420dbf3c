-- ===== src/K8s/Convert/Scaling/RoundTrip.antt =====
-- Autoscalers and scales on their way to the cluster and back.
use board_old.Prelude.{◌≡◌, some}
use board_old.Model.Scaling.{Scale, AutoScale}
use board_old.K8s.Convert.Meta.{from-to_object_meta, time_of-new_time}
use board_old.K8s.Convert.Scaling.{
  from_k8s_scale, to_k8s_scale, from_k8s_auto_scale, to_k8s_auto_scale, update_k8s_auto_scale,
}
use mathlib.Core.Option as Lib

-- A scale and an autoscaler that are created read back as they were. Where an autoscaler `a` is
-- written over another, `b`, the result reads with the limits and the target of `a`, and with the
-- metadata and the status of `b`.
pub from-to_scaling :
    (s : Scale) (a b : AutoScale)
    → (from_k8s_scale (to_k8s_scale s) ≡ s)
      × (from_k8s_auto_scale (to_k8s_auto_scale a) ≡ a)
      × (Lib.map from_k8s_auto_scale (update_k8s_auto_scale (some (to_k8s_auto_scale b)) (some a))
          ≡ some (record b { spec = a.spec }))
unfolding from_k8s_scale to_k8s_scale from_k8s_auto_scale to_k8s_auto_scale update_k8s_auto_scale
from-to_scaling s a b = (
  λ i. record s { object_meta = from-to_object_meta s.object_meta i },
  λ i. record a {
    object_meta = from-to_object_meta a.object_meta i;
    status = record a.status { last_scale_time = time_of-new_time a.status.last_scale_time i };
  },
  λ i. some (record b {
    object_meta = from-to_object_meta b.object_meta i;
    spec = a.spec;
    status = record b.status { last_scale_time = time_of-new_time b.status.last_scale_time i };
  }),
)
