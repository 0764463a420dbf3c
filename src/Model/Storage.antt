-- ===== src/Model/Storage.antt =====
-- common/model/k8scli.go: persistent volumes, their claims, and configuration maps.
use board_old.Prelude.{Option, String, Bool}
use board_old.Prelude.Go.{Slice, GoMap}
use board_old.Model.Meta.{ObjectMeta}
use board_old.Model.Node.{ResourceList}

pub record NfsVolumeSource : Type 0 where
  pub server : String
  pub path : String
  pub read_only : Bool

pub record SecretReference : Type 0 where
  pub name : String
  pub namespace : String

pub record RbdPersistentVolumeSource : Type 0 where
  pub ceph_monitors : Slice String
  pub rbd_image : String
  pub fs_type : String
  pub rbd_pool : String
  pub rados_user : String
  pub keyring : String
  pub secret_ref : Option SecretReference
  pub read_only : Bool

pub record PersistentVolumeSource : Type 0 where
  pub nfs : Option NfsVolumeSource
  pub rbd : Option RbdPersistentVolumeSource

pub record ObjectReference : Type 0 where
  pub kind : String
  pub namespace : String
  pub name : String
  pub uid : String
  pub api_version : String
  pub resource_version : String
  pub field_path : String

pub record PersistentVolumeSpec : Type 0 where
  pub capacity : ResourceList
  pub persistent_volume_source : PersistentVolumeSource
  pub access_modes : Slice String
  pub claim_ref : Option ObjectReference
  pub persistent_volume_reclaim_policy : String
  pub storage_class_name : String
  pub mount_options : Slice String

pub record PersistentVolumeStatus : Type 0 where
  pub phase : String
  pub message : String
  pub reason : String

pub record PersistentVolumeK8scli : Type 0 where
  pub object_meta : ObjectMeta
  pub spec : PersistentVolumeSpec
  pub status : PersistentVolumeStatus

pub record ConfigMap : Type 0 where
  pub object_meta : ObjectMeta
  pub contents : GoMap String
