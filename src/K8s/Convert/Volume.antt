-- ===== src/K8s/Convert/Volume.antt =====
-- convert.go: volumes. The functions are called with pointers that are not nil.
use board_old.Prelude.{Option, none, some, false}
use board_old.Model.Storage.{NfsVolumeSource}
use board_old.Model.Pod.{
  HostPathVolumeSource, PersistentVolumeClaimVolumeSource, ConfigMapVolumeSource, VolumeSource,
  Volume, VolumeMount,
}
use board_old.K8s.Api.Pod as Api

abbrev pub to_host_path : Option HostPathVolumeSource → Option Api.HostPathVolumeSource
to_host_path none = none
to_host_path (some hp) = some (record { path = hp.path })

abbrev pub to_nfs : Option NfsVolumeSource → Option Api.NfsVolumeSource
to_nfs none = none
to_nfs (some nfs) = some (record { server = nfs.server; path = nfs.path; read_only = false })

abbrev pub to_claim :
    Option PersistentVolumeClaimVolumeSource → Option Api.PersistentVolumeClaimVolumeSource
to_claim none = none
to_claim (some pvc) = some (record { claim_name = pvc.claim_name; read_only = pvc.read_only })

-- The items and the modes are left out.
abbrev pub to_config_map : Option ConfigMapVolumeSource → Option Api.ConfigMapVolumeSource
to_config_map none = none
to_config_map (some cm) = some (record {
  local_object_reference = record { name = cm.local_object_reference.name };
  items = none;
  default_mode = none;
  optional = none;
})

unfoldable pub to_k8s_volume_source : VolumeSource → Api.VolumeSource
to_k8s_volume_source vs = record {
  host_path = to_host_path vs.host_path;
  nfs = to_nfs vs.nfs;
  persistent_volume_claim = to_claim vs.persistent_volume_claim;
  config_map = to_config_map vs.config_map;
}

unfoldable pub to_k8s_volume : Volume → Api.Volume
unfolding to_k8s_volume_source
to_k8s_volume v = record { name = v.name; volume_source = to_k8s_volume_source v.volume_source }

abbrev pub from_host_path : Option Api.HostPathVolumeSource → Option HostPathVolumeSource
from_host_path none = none
from_host_path (some hp) = some (record { path = hp.path })

abbrev pub from_nfs : Option Api.NfsVolumeSource → Option NfsVolumeSource
from_nfs none = none
from_nfs (some nfs) = some (record { server = nfs.server; path = nfs.path; read_only = false })

abbrev pub from_claim :
    Option Api.PersistentVolumeClaimVolumeSource → Option PersistentVolumeClaimVolumeSource
from_claim none = none
from_claim (some pvc) = some (record { claim_name = pvc.claim_name; read_only = pvc.read_only })

abbrev pub from_config_map : Option Api.ConfigMapVolumeSource → Option ConfigMapVolumeSource
from_config_map none = none
from_config_map (some cm) = some (record {
  local_object_reference = record { name = cm.local_object_reference.name };
  items = none;
  default_mode = none;
  optional = none;
})

unfoldable pub from_k8s_volume_source : Api.VolumeSource → VolumeSource
from_k8s_volume_source vs = record {
  host_path = from_host_path vs.host_path;
  nfs = from_nfs vs.nfs;
  persistent_volume_claim = from_claim vs.persistent_volume_claim;
  config_map = from_config_map vs.config_map;
}

unfoldable pub from_k8s_volume : Api.Volume → Volume
unfolding from_k8s_volume_source
from_k8s_volume v = record { name = v.name; volume_source = from_k8s_volume_source v.volume_source }

unfoldable pub to_k8s_volume_mount : VolumeMount → Api.VolumeMount
to_k8s_volume_mount m = record {
  name = m.name;
  read_only = false;
  mount_path = m.mount_path;
  sub_path = m.sub_path;
}

unfoldable pub from_k8s_volume_mount : Api.VolumeMount → VolumeMount
from_k8s_volume_mount m = record { name = m.name; mount_path = m.mount_path; sub_path = m.sub_path }
