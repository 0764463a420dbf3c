-- ===== src/K8s/Convert/Storage/RoundTrip.antt =====
-- Volumes and configuration maps on their way to the cluster and back.
use mathlib.Core.Option.{some-injective}
use mathlib.Core.Path.{subst}
use board_old.Prelude.{◌≡◌, refl, none, some, Option, String, List, [], ◌∷◌}
use board_old.Prelude.Go.{
  Slice, elems, copy_back, fill, lookup, insert, NodupKeys, lookup-fill, filled,
}
use board_old.Prelude.Int.{ℤ}
use board_old.Prelude.Decimal.{itoa}
use board_old.Model.Storage.{
  RbdPersistentVolumeSource, ObjectReference, PersistentVolumeK8scli, ConfigMap,
}
use board_old.K8s.Api.Meta.{Quantities, IsLawful, IsShort}
use board_old.K8s.Api.Storage as Api
use board_old.K8s.Convert.Meta.{from-to_object_meta}
use board_old.K8s.Convert.Node.{quantity_of, text_of}
use board_old.K8s.Convert.Storage.{
  from_k8s_rbd, to_k8s_rbd, from_k8s_pv_access_mode, to_k8s_pv_access_mode,
  from_k8s_pv_object_reference, to_k8s_pv_object_reference, from_k8s_pv, to_k8s_pv, sent_pv,
  parsed_storage, update_k8s_pv, from_k8s_config_map, to_k8s_config_map, update_k8s_config_map,
}

from-to_rbd : (r : Option RbdPersistentVolumeSource) → from_k8s_rbd (to_k8s_rbd r) ≡ r
unfolding from_k8s_rbd to_k8s_rbd
from-to_rbd none = refl
from-to_rbd (some r) = refl

from-to_object_reference :
    (r : Option ObjectReference) → from_k8s_pv_object_reference (to_k8s_pv_object_reference r) ≡ r
unfolding from_k8s_pv_object_reference to_k8s_pv_object_reference
from-to_object_reference none = refl
from-to_object_reference (some r) = refl

from-to_access_mode :
    (am : Slice String) → from_k8s_pv_access_mode (to_k8s_pv_access_mode am) ≡ some (elems am)
unfolding from_k8s_pv_access_mode to_k8s_pv_access_mode
from-to_access_mode am = copy_back (λ (m : String). m) (λ m. m) (λ m. refl) (elems am)

module _ (Q : Quantities) where
  -- A volume `k` of the API, sent for `pv`, reads as `pv` in all but its capacity; access modes that
  -- were nil read as empty.
  abbrev pub ReadsAsSent : PersistentVolumeK8scli → Api.PersistentVolume Q.Quantity → Type 0
  ReadsAsSent pv k =
      let pv' = from_k8s_pv Q k in
      pv' ≡ record pv {
        spec = record pv.spec {
          capacity = pv'.spec.capacity;
          access_modes = some (elems pv.spec.access_modes);
        };
      }

  reads_as_sent :
      (pv : PersistentVolumeK8scli) (capacity : List (String × Q.Quantity))
      → ReadsAsSent pv (sent_pv Q pv capacity)
  unfolding from_k8s_pv
  reads_as_sent pv capacity = λ i. record {
    object_meta = from-to_object_meta pv.object_meta i;
    spec = record {
      capacity = some (fill (text_of Q) capacity []);
      persistent_volume_source = record {
        nfs = pv.spec.persistent_volume_source.nfs;
        rbd = from-to_rbd pv.spec.persistent_volume_source.rbd i;
      };
      access_modes = from-to_access_mode pv.spec.access_modes i;
      claim_ref = from-to_object_reference pv.spec.claim_ref i;
      persistent_volume_reclaim_policy = pv.spec.persistent_volume_reclaim_policy;
      storage_class_name = pv.spec.storage_class_name;
      mount_options = pv.spec.mount_options;
    };
    status = pv.status;
  }

  -- A volume whose storage is written as a number of bytes of at most 18 digits is sent without a
  -- panic, and reads as it was: its storage as the same number, and no other capacity.
  pub from-to_k8s_pv :
      IsLawful Q
      → (pv : PersistentVolumeK8scli) (bytes : ℤ) → IsShort bytes
      → lookup "storage" (elems pv.spec.capacity) ≡ some (itoa bytes)
      → (k : Api.PersistentVolume Q.Quantity) × (to_k8s_pv Q pv ≡ some k)
        × ReadsAsSent pv k
        × ((from_k8s_pv Q k).spec.capacity ≡ some (("storage", itoa bytes) ∷ []))
  unfolding to_k8s_pv from_k8s_pv fill insert text_of
  from-to_k8s_pv L pv bytes fits stored =
      let (q, parsed, read) = L.must_parse-itoa bytes fits in
      (
        sent_pv Q pv (("storage", q) ∷ []),
        rw (stored, parsed_storage, parsed) refl,
        reads_as_sent pv (("storage", q) ∷ []),
        λ i. some (("storage", itoa (read i).0) ∷ []),
      )

  -- An update of a volume replaces its capacity by that of the program's volume, resource by
  -- resource, and nothing else.
  pub lookup-update_k8s_pv :
      (k : Api.PersistentVolume Q.Quantity) (pv : PersistentVolumeK8scli)
      {k' : Api.PersistentVolume Q.Quantity}
      → update_k8s_pv Q (some k) (some pv) ≡ some k'
      → NodupKeys (elems pv.spec.capacity)
      → (k' ≡ record k { spec = record k.spec { capacity = k'.spec.capacity } })
        × ((j : String)
            → lookup j (elems k'.spec.capacity)
              ≡ filled (quantity_of Q) (lookup j (elems pv.spec.capacity)) none)
  unfolding update_k8s_pv lookup
  lookup-update_k8s_pv k pv {k'} e u =
      subst
        (λ (k' : Api.PersistentVolume Q.Quantity).
          (k' ≡ record k { spec = record k.spec { capacity = k'.spec.capacity } })
          × ((j : String)
              → lookup j (elems k'.spec.capacity)
                ≡ filled (quantity_of Q) (lookup j (elems pv.spec.capacity)) none))
        (some-injective _ _ e)
        (refl, λ j. lookup-fill (quantity_of Q) j (elems pv.spec.capacity) [] u)

-- A configuration map that is created, or updated over any other, reads back with its contents; a
-- created one with its metadata too, an updated one with the cluster's.
pub from-to_config_map :
    (k : Api.ConfigMap) (cm : ConfigMap)
    → (from_k8s_config_map (to_k8s_config_map cm) ≡ cm)
      × (update_k8s_config_map (some k) (some cm)
          ≡ some (record (to_k8s_config_map cm) {
            type_meta = k.type_meta;
            object_meta = k.object_meta;
          }))
unfolding from_k8s_config_map to_k8s_config_map update_k8s_config_map
from-to_config_map k cm =
    (λ i. record cm { object_meta = from-to_object_meta cm.object_meta i }, refl)
