-- ===== src/Deploy/View/Mounts.antt =====
-- The mounts of a container, sent with its volumes and read back.
use board_old.Prelude.{ℕ, suc, ◌+◌, String, some, ◌≡◌, refl, ◌∙◌, ap}
use board_old.Prelude.{List, [], ◌∷◌, ◌++◌, map, inl, inr, false, if◌then◌else◌, Bool-cases, arith}
use board_old.Prelude.Int.{pos, eq_ℤ}
use board_old.Prelude.Text.{str_eq}
use board_old.Prelude.Panic.{index}
use board_old.Model.ServiceConfig.{VolumeMountStruct}
use board_old.Model.Pod.{Volume, VolumeSource}
use board_old.Deploy.Volumes.{volume_source, volume_of, volumes_of}
use board_old.Deploy.Containers.{volume_mount, volume_mounts}
use board_old.Deploy.View.{mounted, with_target, view_mounts}

-- A mount with a name, of one of the four types.
abbrev pub IsKnown : VolumeMountStruct → Type 0
IsKnown v =
    (str_eq v.volume_name "" ≡ false) × (source : VolumeSource) × (volume_source v ≡ some source)

abbrev pub AllKnown : List VolumeMountStruct → Type 0
AllKnown [] = Unit
AllKnown (v ∷ vs) = IsKnown v × AllKnown vs

-- A mount as it can be read back: the fields of its type's target, and for a file the joined path,
-- with the target's file for the container's.
abbrev pub normal_target : VolumeMountStruct → VolumeMountStruct → VolumeMountStruct
normal_target v m =
    if str_eq v.volume_type "hostpath"
    then record m { volume_type = "hostpath"; target_path = v.target_path }
    else if str_eq v.volume_type "nfs"
    then record m {
      volume_type = "nfs";
      target_storage_service = v.target_storage_service;
      target_path = v.target_path;
    }
    else if str_eq v.volume_type "pvc"
    then record m { volume_type = "pvc"; target_pvc = v.target_pvc }
    else record m { volume_type = "configmap"; target_config_map = v.target_config_map }

with_target_lem :
    (v m : VolumeMountStruct) {source : VolumeSource}
    → volume_source v ≡ some source
    → with_target source m ≡ normal_target v m
unfolding volume_source with_target
with_target_lem v m e = ground arith

volumes_of-known :
    (v : VolumeMountStruct) (vs : List VolumeMountStruct) {source : VolumeSource}
    → volume_source v ≡ some source
    → volumes_of (v ∷ vs) ≡ record { name = v.volume_name; volume_source = source } ∷ volumes_of vs
unfolding volumes_of
volumes_of-known v vs e = ap (λ o. volume_of v o ++ volumes_of vs) e

module _ (volumes : List Volume) (i : ℕ) (v : VolumeMountStruct) (vs : List VolumeMountStruct) where
  volume_at :
      {source : VolumeSource}
      → volume_source v ≡ some source
      → ((k : ℕ) → index volumes (i + k) ≡ index (volumes_of (v ∷ vs)) k)
      → index volumes i ≡ some (record { name = v.volume_name; volume_source = source })
  unfolding index
  volume_at {source} e at =
      let here : i ≡ i + 0 = omega arith in
      ap (index volumes) here ∙ at 0 ∙ ap (λ xs. index xs 0) (volumes_of-known v vs e)

  volume_after :
      (k : ℕ) {source : VolumeSource}
      → volume_source v ≡ some source
      → ((k : ℕ) → index volumes (i + k) ≡ index (volumes_of (v ∷ vs)) k)
      → index volumes (suc i + k) ≡ index (volumes_of vs) k
  unfolding index
  volume_after k e at =
      let next : suc i + k ≡ i + suc k = omega arith in
      ap (index volumes) next ∙ at (suc k) ∙ ap (λ xs. index xs (suc k)) (volumes_of-known v vs e)

module _ (join : String → String → String) where
  abbrev pub normal_mount : VolumeMountStruct → VolumeMountStruct
  normal_mount v = normal_target v (mounted (volume_mount join v))

  mount_name : (v : VolumeMountStruct) → (volume_mount join v).name ≡ v.volume_name
  unfolding volume_mount
  mount_name v = elim (Bool-cases (eq_ℤ v.container_path_flag (pos 0))) [
    | inl h ↦ simp h refl
    | inr h ↦ simp h refl
  ]

  view_from :
      (volumes : List Volume) (i : ℕ) (vs : List VolumeMountStruct)
      → AllKnown vs
      → ((k : ℕ) → index volumes (i + k) ≡ index (volumes_of vs) k)
      → view_mounts volumes i (volume_mounts join vs) ≡ some (map normal_mount vs)
  unfolding view_mounts volume_mounts
  view_from volumes i [] a at = refl
  view_from volumes i (v ∷ vs) ((n, source, e), a) at =
      let first : index volumes i ≡ some (record { name = v.volume_name; volume_source = source }) =
        volume_at volumes i v vs e at in
      let rest : (k : ℕ) → index volumes (suc i + k) ≡ index (volumes_of vs) k =
        λ k. volume_after volumes i v vs k e at in
      let later = view_from volumes (suc i) vs a rest in
      let shown = with_target_lem v (mounted (volume_mount join v)) e in
      let test : str_eq (volume_mount join v).name "" ≡ false = rw (mount_name v) n in
      simp n (rw (test, first, later) (ap (λ m. some (m ∷ map normal_mount vs)) shown))

-- The mounts of a container, all with a name and of one of the four types, are read back from its
-- own volumes in order.
pub view_mounts-volume_mounts :
    (join : String → String → String) (vs : List VolumeMountStruct)
    → AllKnown vs
    → view_mounts (volumes_of vs) 0 (volume_mounts join vs) ≡ some (map (normal_mount join) vs)
view_mounts-volume_mounts join vs a =
    view_from join (volumes_of vs) 0 vs a (λ k. ap (index (volumes_of vs)) (omega arith))
