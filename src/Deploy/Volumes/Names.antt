-- ===== src/Deploy/Volumes/Names.antt =====
-- The volumes of a pod: each has a name of its own, and each mount of an init container has one.
use board_old.Prelude.{String, true, false, Option, none, some, ◌||◌, ◌≡◌, refl, arith}
use board_old.Prelude.{List, [], ◌∷◌, ◌++◌, inl, inr, Bool-cases, append-nil}
use board_old.Prelude.Go.{Slice, elems}
use board_old.Prelude.Text.{str_eq_iff, str_eq_refl}
use board_old.Model.ServiceConfig.{Container, VolumeMountStruct}
use board_old.Model.Pod.{Volume, VolumeSource}
use board_old.ServiceConfig.Ports.{In}
use board_old.Deploy.Volumes.{
  volume_source, volume_of, has_volume, add_volume, add_volumes, add_all_volumes, appended,
  add_init_container_volumes,
}

-- No two volumes of the list have one name.
abbrev pub NodupNames : List Volume → Type 0
NodupNames [] = Unit
NodupNames (v ∷ rest) = (has_volume v.name rest ≡ false) × NodupNames rest

has_volume-append :
    (name : String) (xs ys : List Volume)
    → has_volume name (xs ++ ys) ≡ (has_volume name xs || has_volume name ys)
has_volume-append name [] ys = refl
has_volume-append name (x ∷ xs) ys = ground (arith, has_volume-append name xs ys)

append-NodupNames :
    (xs : List Volume) (y : Volume)
    → NodupNames xs
    → has_volume y.name xs ≡ false
    → NodupNames (xs ++ y ∷ [])
append-NodupNames [] y u h = (refl, tt)
append-NodupNames (x ∷ xs) y (fresh, u) h = (
  ground (
    arith,
    has_volume-append x.name xs (y ∷ []),
    str_eq_iff x.name y.name,
    str_eq_iff y.name x.name,
  ),
  append-NodupNames xs y u (ground arith),
)

add-NodupNames :
    (v : VolumeMountStruct) (xs : List Volume) (source : Option VolumeSource)
    → has_volume v.volume_name xs ≡ false
    → NodupNames xs
    → NodupNames (xs ++ volume_of v source)
add-NodupNames v xs none h u = rw (append-nil xs) u
add-NodupNames v xs (some source) h u = append-NodupNames xs _ u h

add_volume-NodupNames :
    (v : VolumeMountStruct) (xs : List Volume) → NodupNames xs → NodupNames (add_volume v xs)
unfolding add_volume
add_volume-NodupNames v xs u = elim (Bool-cases (has_volume v.volume_name xs)) [
  | inl h ↦ rw h u
  | inr h ↦ rw h (add-NodupNames v xs (volume_source v) h u)
]

add_volumes-NodupNames :
    (vs : List VolumeMountStruct) (xs : List Volume)
    → NodupNames xs
    → NodupNames (add_volumes vs xs)
unfolding add_volumes
add_volumes-NodupNames [] xs u = u
add_volumes-NodupNames (v ∷ vs) xs u =
    add_volumes-NodupNames vs (add_volume v xs) (add_volume-NodupNames v xs u)

add_all_volumes-NodupNames :
    (cs : List Container) (xs : List Volume) → NodupNames xs → NodupNames (add_all_volumes cs xs)
unfolding add_all_volumes
add_all_volumes-NodupNames [] xs u = u
add_all_volumes-NodupNames (c ∷ cs) xs u =
    add_all_volumes-NodupNames cs (add_volumes (elems c.volume_mounts) xs)
      (add_volumes-NodupNames (elems c.volume_mounts) xs u)

elems-appended : (before : Slice Volume) (now : List Volume) → elems (appended before now) ≡ now
elems-appended none [] = refl
elems-appended none (x ∷ now) = refl
elems-appended (some before) now = refl

-- Volumes with names of their own stay so when those of the init containers are added.
pub add_init_container_volumes-NodupNames :
    (containers : Slice Container) (volumes : Slice Volume)
    → NodupNames (elems volumes)
    → NodupNames (elems (add_init_container_volumes containers volumes))
unfolding add_init_container_volumes
add_init_container_volumes-NodupNames none volumes u = u
add_init_container_volumes-NodupNames (some cs) volumes u =
    rw (elems-appended volumes (add_all_volumes cs (elems volumes)))
      (add_all_volumes-NodupNames cs (elems volumes) u)

-- A volume that is there stays there.
add_volume_keeps :
    (name : String) (v : VolumeMountStruct) (xs : List Volume)
    → has_volume name xs ≡ true
    → has_volume name (add_volume v xs) ≡ true
unfolding add_volume
add_volume_keeps name v xs h =
    ground (arith, has_volume-append name xs (volume_of v (volume_source v)))

add_volumes_keep :
    (name : String) (vs : List VolumeMountStruct) (xs : List Volume)
    → has_volume name xs ≡ true
    → has_volume name (add_volumes vs xs) ≡ true
unfolding add_volumes
add_volumes_keep name [] xs h = h
add_volumes_keep name (v ∷ vs) xs h =
    add_volumes_keep name vs (add_volume v xs) (add_volume_keeps name v xs h)

add_all_volumes_keep :
    (name : String) (cs : List Container) (xs : List Volume)
    → has_volume name xs ≡ true
    → has_volume name (add_all_volumes cs xs) ≡ true
unfolding add_all_volumes
add_all_volumes_keep name [] xs h = h
add_all_volumes_keep name (c ∷ cs) xs h =
    add_all_volumes_keep name cs (add_volumes (elems c.volume_mounts) xs)
      (add_volumes_keep name (elems c.volume_mounts) xs h)

has-add_volume :
    (v : VolumeMountStruct) (xs : List Volume) {source : VolumeSource}
    → volume_source v ≡ some source
    → has_volume v.volume_name (add_volume v xs) ≡ true
unfolding add_volume
has-add_volume v xs {source} e = simp e (
    ground (
      arith,
      has_volume-append v.volume_name xs (volume_of v (some source)),
      str_eq_refl v.volume_name,
    ))

has-add_volumes :
    (v : VolumeMountStruct) (vs : List VolumeMountStruct) (xs : List Volume) {source : VolumeSource}
    → In v vs
    → volume_source v ≡ some source
    → has_volume v.volume_name (add_volumes vs xs) ≡ true
unfolding add_volumes
has-add_volumes v [] xs m e = absurd m
has-add_volumes v (w ∷ vs) xs (inl same) e =
    add_volumes_keep v.volume_name vs (add_volume w xs) (rw (← same) (has-add_volume v xs e))
has-add_volumes v (w ∷ vs) xs (inr m) e = has-add_volumes v vs (add_volume w xs) m e

has-add_all_volumes :
    (v : VolumeMountStruct) (c : Container) (cs : List Container) (xs : List Volume)
    {source : VolumeSource}
    → In c cs
    → In v (elems c.volume_mounts)
    → volume_source v ≡ some source
    → has_volume v.volume_name (add_all_volumes cs xs) ≡ true
unfolding add_all_volumes
has-add_all_volumes v c [] xs m i e = absurd m
has-add_all_volumes v c (d ∷ cs) xs (inl same) i e =
    add_all_volumes_keep v.volume_name cs (add_volumes (elems d.volume_mounts) xs)
      (rw (← same) (has-add_volumes v (elems c.volume_mounts) xs i e))
has-add_all_volumes v c (d ∷ cs) xs (inr m) i e =
    has-add_all_volumes v c cs (add_volumes (elems d.volume_mounts) xs) m i e

-- Every mount of an init container whose type is one of the four finds a volume of its name.
pub add_init_container_volumes_complete :
    (v : VolumeMountStruct) (c : Container) (containers : List Container) (volumes : Slice Volume)
    {source : VolumeSource}
    → In c containers
    → In v (elems c.volume_mounts)
    → volume_source v ≡ some source
    → has_volume v.volume_name (elems (add_init_container_volumes (some containers) volumes)) ≡ true
unfolding add_init_container_volumes
add_init_container_volumes_complete v c cs volumes m i e =
    rw (elems-appended volumes (add_all_volumes cs (elems volumes)))
      (has-add_all_volumes v c cs (elems volumes) m i e)
