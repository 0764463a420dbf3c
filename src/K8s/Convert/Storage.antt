-- ===== src/K8s/Convert/Storage.antt =====
-- convert.go: persistent volumes and configuration maps.
pub mod RoundTrip
use board_old.Prelude.{Option, none, some, String, List, []}
use board_old.Prelude.Go.{Slice, GoMap, elems, append_each, fill, lookup, insert}
use board_old.Model.Node.{ResourceList}
use board_old.Model.Storage.{
  RbdPersistentVolumeSource, ObjectReference, PersistentVolumeK8scli, ConfigMap,
}
use board_old.K8s.Api.Meta.{Quantities}
use board_old.K8s.Api.Storage as Api
use board_old.K8s.Convert.Meta.{to_k8s_object_meta, from_k8s_object_meta}
use board_old.K8s.Convert.Node.{quantity_of, text_of}

pub from_k8s_rbd : Option Api.RbdPersistentVolumeSource → Option RbdPersistentVolumeSource
from_k8s_rbd none = none
from_k8s_rbd (some rbd) = some (record {
  ceph_monitors = rbd.ceph_monitors;
  rbd_image = rbd.rbd_image;
  fs_type = rbd.fs_type;
  rbd_pool = rbd.rbd_pool;
  rados_user = rbd.rados_user;
  keyring = rbd.keyring;
  secret_ref = rbd.secret_ref;
  read_only = rbd.read_only;
})

pub to_k8s_rbd : Option RbdPersistentVolumeSource → Option Api.RbdPersistentVolumeSource
to_k8s_rbd none = none
to_k8s_rbd (some rbd) = some (record {
  ceph_monitors = rbd.ceph_monitors;
  rbd_image = rbd.rbd_image;
  fs_type = rbd.fs_type;
  rbd_pool = rbd.rbd_pool;
  rados_user = rbd.rados_user;
  keyring = rbd.keyring;
  secret_ref = rbd.secret_ref;
  read_only = rbd.read_only;
})

-- A conversion between two named string types is the identity.
pub from_k8s_pv_access_mode : Slice String → Slice String
from_k8s_pv_access_mode am = append_each (λ mode. mode) (some []) (elems am)

pub to_k8s_pv_access_mode : Slice String → Slice String
to_k8s_pv_access_mode am = append_each (λ mode. mode) (some []) (elems am)

pub from_k8s_pv_object_reference : Option Api.ObjectReference → Option ObjectReference
from_k8s_pv_object_reference none = none
from_k8s_pv_object_reference (some r) = some (record {
  kind = r.kind;
  namespace = r.namespace;
  name = r.name;
  uid = r.uid;
  api_version = r.api_version;
  resource_version = r.resource_version;
  field_path = r.field_path;
})

pub to_k8s_pv_object_reference : Option ObjectReference → Option Api.ObjectReference
to_k8s_pv_object_reference none = none
to_k8s_pv_object_reference (some r) = some (record {
  kind = r.kind;
  namespace = r.namespace;
  name = r.name;
  uid = r.uid;
  api_version = r.api_version;
  resource_version = r.resource_version;
  field_path = r.field_path;
})

module _ (Q : Quantities) where
  pub from_k8s_pv : Api.PersistentVolume Q.Quantity → PersistentVolumeK8scli
  unfolding from_k8s_rbd from_k8s_pv_access_mode from_k8s_pv_object_reference
  from_k8s_pv pv = record {
    object_meta = from_k8s_object_meta pv.object_meta;
    spec = record {
      capacity = some (fill (text_of Q) (elems pv.spec.capacity) []);
      persistent_volume_source = record {
        nfs = pv.spec.persistent_volume_source.nfs;
        rbd = from_k8s_rbd pv.spec.persistent_volume_source.rbd;
      };
      access_modes = from_k8s_pv_access_mode pv.spec.access_modes;
      claim_ref = from_k8s_pv_object_reference pv.spec.claim_ref;
      persistent_volume_reclaim_policy = pv.spec.persistent_volume_reclaim_policy;
      storage_class_name = pv.spec.storage_class_name;
      mount_options = pv.spec.mount_options;
    };
    status = pv.status;
  }

  -- A map with the one resource, of a text that `MustParse` reads; `none` where it panics.
  pub parsed_storage : Option String → Option (List (String × Q.Quantity))
  parsed_storage none = some []
  parsed_storage (some v) = elim (Q.must_parse v) [
    | none ↦ none
    | some q ↦ some (insert "storage" q [])
  ]

  abbrev pub sent_pv :
      PersistentVolumeK8scli → List (String × Q.Quantity) → Api.PersistentVolume Q.Quantity
  sent_pv pv capacity = record {
    type_meta = record { kind = "PersistentVolume"; api_version = "v1" };
    object_meta = to_k8s_object_meta pv.object_meta;
    spec = record {
      capacity = some capacity;
      persistent_volume_source = record {
        nfs = pv.spec.persistent_volume_source.nfs;
        rbd = to_k8s_rbd pv.spec.persistent_volume_source.rbd;
      };
      access_modes = to_k8s_pv_access_mode pv.spec.access_modes;
      claim_ref = to_k8s_pv_object_reference pv.spec.claim_ref;
      persistent_volume_reclaim_policy = pv.spec.persistent_volume_reclaim_policy;
      storage_class_name = pv.spec.storage_class_name;
      mount_options = pv.spec.mount_options;
    };
    status = pv.status;
  }

  abbrev pub send_pv :
      PersistentVolumeK8scli
      → Option (List (String × Q.Quantity))
      → Option (Api.PersistentVolume Q.Quantity)
  send_pv pv none = none
  send_pv pv (some capacity) = some (sent_pv pv capacity)

  -- Of the capacity only the resource "storage" is sent. `none` is a panic.
  pub to_k8s_pv : PersistentVolumeK8scli → Option (Api.PersistentVolume Q.Quantity)
  unfolding parsed_storage to_k8s_rbd to_k8s_pv_access_mode to_k8s_pv_object_reference
  to_k8s_pv pv = send_pv pv (parsed_storage (lookup "storage" (elems pv.spec.capacity)))

  unfoldable pub update_k8s_pv :
      Option (Api.PersistentVolume Q.Quantity)
      → Option PersistentVolumeK8scli
      → Option (Api.PersistentVolume Q.Quantity)
  update_k8s_pv none pv = none
  update_k8s_pv (some k8s_pv) none = some k8s_pv
  update_k8s_pv (some k8s_pv) (some pv) = some (record k8s_pv {
    spec = record k8s_pv.spec {
      capacity = some (fill (quantity_of Q) (elems pv.spec.capacity) []);
    };
  })

pub from_k8s_config_map : Api.ConfigMap → ConfigMap
from_k8s_config_map configmap = record {
  object_meta = from_k8s_object_meta configmap.object_meta;
  contents = configmap.contents;
}

pub to_k8s_config_map : ConfigMap → Api.ConfigMap
to_k8s_config_map configmap = record {
  type_meta = record { kind = "ConfigMap"; api_version = "v1" };
  object_meta = to_k8s_object_meta configmap.object_meta;
  contents = configmap.contents;
}

pub update_k8s_config_map : Option Api.ConfigMap → Option ConfigMap → Option Api.ConfigMap
update_k8s_config_map none cm = none
update_k8s_config_map (some k8s_cm) none = some k8s_cm
update_k8s_config_map (some k8s_cm) (some cm) = some (record k8s_cm { contents = cm.contents })
