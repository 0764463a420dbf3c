-- ===== src/K8s/Api/Storage.antt =====
-- k8s.io/api/core/v1: persistent volumes and configuration maps. Types that the code converts by a
-- Go conversion have the same fields on both sides, and are the program's here. `Q` is the type of
-- quantities.
use board_old.Prelude.{Option, String}
use board_old.Prelude.Go.{Slice, GoMap}
use board_old.Model.Storage.{NfsVolumeSource, SecretReference, PersistentVolumeStatus}
use board_old.K8s.Api.Meta.{TypeMeta, ObjectMeta}
use board_old.Prelude.{Bool}

pub record RbdPersistentVolumeSource : Type 0 where
  pub ceph_monitors : Slice String
  pub rbd_image : String
  pub fs_type : String
  pub rbd_pool : String
  pub rados_user : String
  pub keyring : String
  pub secret_ref : Option SecretReference
  pub read_only : Bool

pub record PersistentVolumeSource : Type 0 where
  pub nfs : Option NfsVolumeSource
  pub rbd : Option RbdPersistentVolumeSource

pub record ObjectReference : Type 0 where
  pub kind : String
  pub namespace : String
  pub name : String
  pub uid : String
  pub api_version : String
  pub resource_version : String
  pub field_path : String

pub record PersistentVolumeSpec (Q : Type 0) : Type 0 where
  pub capacity : GoMap Q
  pub persistent_volume_source : PersistentVolumeSource
  pub access_modes : Slice String
  pub claim_ref : Option ObjectReference
  pub persistent_volume_reclaim_policy : String
  pub storage_class_name : String
  pub mount_options : Slice String

pub record PersistentVolume (Q : Type 0) : Type 0 where
  pub type_meta : TypeMeta
  pub object_meta : ObjectMeta
  pub spec : PersistentVolumeSpec Q
  pub status : PersistentVolumeStatus

pub record ConfigMap : Type 0 where
  pub type_meta : TypeMeta
  pub object_meta : ObjectMeta
  pub contents : GoMap String
