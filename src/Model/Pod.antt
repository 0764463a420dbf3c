-- ===== src/Model/Pod.antt =====
-- common/model/k8scli.go: volumes, containers, placement and pods.
use board_old.Prelude.{Option, String, Bool}
use board_old.Prelude.Go.{Slice}
use board_old.Prelude.Int.{ℤ}
use board_old.Model.Node.{ResourceList}
use board_old.Model.Storage.{NfsVolumeSource}

pub record HostPathVolumeSource : Type 0 where
  pub path : String

pub record PersistentVolumeClaimVolumeSource : Type 0 where
  pub claim_name : String
  pub read_only : Bool

pub record LocalObjectReference : Type 0 where
  pub name : String

pub record KeyToPath : Type 0 where
  pub key : String
  pub path : String
  pub mode : Option ℤ

pub record ConfigMapVolumeSource : Type 0 where
  pub local_object_reference : LocalObjectReference
  pub items : Slice KeyToPath
  pub default_mode : Option ℤ
  pub optional : Option Bool

pub record VolumeSource : Type 0 where
  pub host_path : Option HostPathVolumeSource
  pub nfs : Option NfsVolumeSource
  pub persistent_volume_claim : Option PersistentVolumeClaimVolumeSource
  pub config_map : Option ConfigMapVolumeSource

pub record Volume : Type 0 where
  pub name : String
  pub volume_source : VolumeSource

pub record VolumeMount : Type 0 where
  pub name : String
  pub mount_path : String
  pub sub_path : String

pub record ContainerPort : Type 0 where
  pub name : String
  pub host_port : ℤ
  pub container_port : ℤ
  pub protocol : String
  pub host_ip : String

pub record ConfigMapKeySelector : Type 0 where
  pub local_object_reference : LocalObjectReference
  pub key : String
  pub optional : Option Bool

pub record EnvVarSource : Type 0 where
  pub config_map_key_ref : Option ConfigMapKeySelector

pub record EnvVar : Type 0 where
  pub name : String
  pub value : String
  pub value_from : Option EnvVarSource

pub record ResourceRequirements : Type 0 where
  pub limits : ResourceList
  pub requests : ResourceList

pub record SecurityContext : Type 0 where
  pub privileged : Option Bool

pub record K8sContainer : Type 0 where
  pub name : String
  pub image : String
  pub command : Slice String
  pub args : Slice String
  pub working_dir : String
  pub ports : Slice ContainerPort
  pub env : Slice EnvVar
  pub resources : ResourceRequirements
  pub volume_mounts : Slice VolumeMount
  pub security_context : Option SecurityContext
