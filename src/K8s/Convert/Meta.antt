-- ===== src/K8s/Convert/Meta.antt =====
-- convert.go: the metadata of an object.
use board_old.Prelude.{ℕ, Option, none, some, ◌≡◌, refl}
use board_old.Model.Meta.{ObjectMeta}
use board_old.K8s.Api.Meta as Api

-- `metav1.NewTime` and the field `Time`, behind a pointer that may be nil
abbrev pub new_time : Option ℕ → Option Api.Time
new_time none = none
new_time (some t) = some (record { time = t })

abbrev pub time_of : Option Api.Time → Option ℕ
time_of none = none
time_of (some t) = some t.time

pub time_of-new_time : (t : Option ℕ) → time_of (new_time t) ≡ t
time_of-new_time none = refl
time_of-new_time (some t) = refl

unfoldable pub to_k8s_object_meta : ObjectMeta → Api.ObjectMeta
to_k8s_object_meta meta = record {
  name = meta.name;
  namespace = meta.namespace;
  uid = "";
  resource_version = "";
  creation_timestamp = record { time = meta.creation_timestamp };
  deletion_timestamp = new_time meta.deletion_timestamp;
  labels = meta.labels;
  annotations = meta.annotations;
}

unfoldable pub from_k8s_object_meta : Api.ObjectMeta → ObjectMeta
from_k8s_object_meta meta = record {
  name = meta.name;
  namespace = meta.namespace;
  creation_timestamp = meta.creation_timestamp.time;
  deletion_timestamp = time_of meta.deletion_timestamp;
  labels = meta.labels;
  annotations = meta.annotations;
}

-- No field of the program's metadata is lost on the way to the cluster and back.
pub from-to_object_meta : (m : ObjectMeta) → from_k8s_object_meta (to_k8s_object_meta m) ≡ m
unfolding to_k8s_object_meta from_k8s_object_meta
from-to_object_meta m =
    λ i. record m { deletion_timestamp = time_of-new_time m.deletion_timestamp i }
