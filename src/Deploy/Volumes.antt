-- ===== src/Deploy/Volumes.antt =====
-- serviceconfig.go: the volumes of the containers and of the init containers of a draft.
pub mod Names
use board_old.Prelude.{String, Bool, true, false, Option, none, some, ◌||◌}
use board_old.Prelude.{List, [], ◌∷◌, ◌++◌, if◌then◌else◌}
use board_old.Prelude.Go.{Slice, elems, nil_if_empty}
use board_old.Prelude.Text.{str_eq}
use board_old.Model.ServiceConfig.{Container, VolumeMountStruct}
use board_old.Model.Pod.{Volume, VolumeSource}

abbrev pub no_source : VolumeSource
no_source = record {
  host_path = none;
  nfs = none;
  persistent_volume_claim = none;
  config_map = none;
}

abbrev pub host_path_source : String → VolumeSource
host_path_source path = record no_source { host_path = some (record { path = path }) }

abbrev pub nfs_source : String → String → VolumeSource
nfs_source server path = record no_source {
  nfs = some (record { server = server; path = path; read_only = false });
}

abbrev pub claim_source : String → VolumeSource
claim_source name = record no_source {
  persistent_volume_claim = some (record { claim_name = name; read_only = false });
}

abbrev pub config_map_source : String → VolumeSource
config_map_source name = record no_source {
  config_map = some (record {
    local_object_reference = record { name = name };
    items = none;
    default_mode = none;
    optional = none;
  });
}

-- The switch on the type; a volume of any other type is left out.
unfoldable pub volume_source : VolumeMountStruct → Option VolumeSource
volume_source v =
    if str_eq v.volume_type "hostpath"
    then some (host_path_source v.target_path)
    else if str_eq v.volume_type "nfs"
    then some (nfs_source v.target_storage_service v.target_path)
    else if str_eq v.volume_type "pvc"
    then some (claim_source v.target_pvc)
    else if str_eq v.volume_type "configmap"
    then some (config_map_source v.target_config_map)
    else none

-- One round: the volume that is appended, if any.
abbrev pub volume_of : VolumeMountStruct → Option VolumeSource → List Volume
volume_of v none = []
volume_of v (some source) = record { name = v.volume_name; volume_source = source } ∷ []

-- The loop of setVolumes.
unfoldable pub volumes_of : List VolumeMountStruct → List Volume
unfolding volume_source
volumes_of [] = []
volumes_of (v ∷ rest) = volume_of v (volume_source v) ++ volumes_of rest

unfoldable pub set_volumes : Slice VolumeMountStruct → Slice Volume
unfolding volumes_of
set_volumes none = none
set_volumes (some mounts) = some (volumes_of mounts)

-- The loop of setDeploymentVolumes.
unfoldable pub container_volumes : List Container → List Volume
unfolding set_volumes
container_volumes [] = []
container_volumes (cont ∷ rest) = elems (set_volumes cont.volume_mounts) ++ container_volumes rest

unfoldable pub set_deployment_volumes : Slice Container → Slice Volume
unfolding container_volumes
set_deployment_volumes none = none
set_deployment_volumes (some containers) = some (container_volumes containers)

abbrev pub has_volume : String → List Volume → Bool
has_volume name [] = false
has_volume name (v ∷ rest) = str_eq name v.name || has_volume name rest

-- One round of the inner loop: the mount's volume is appended if none has its name.
unfoldable pub add_volume : VolumeMountStruct → List Volume → List Volume
unfolding volume_source
add_volume v volumes =
    if has_volume v.volume_name volumes then volumes else volumes ++ volume_of v (volume_source v)

unfoldable pub add_volumes : List VolumeMountStruct → List Volume → List Volume
unfolding add_volume
add_volumes [] volumes = volumes
add_volumes (v ∷ rest) volumes = add_volumes rest (add_volume v volumes)

unfoldable pub add_all_volumes : List Container → List Volume → List Volume
unfolding add_volumes
add_all_volumes [] volumes = volumes
add_all_volumes (cont ∷ rest) volumes =
    add_all_volumes rest (add_volumes (elems cont.volume_mounts) volumes)

-- What appends make of a slice whose elements are then those of the list.
abbrev pub appended : Slice Volume → List Volume → Slice Volume
appended none now = nil_if_empty now
appended (some before) now = some now

-- A container with a nil slice of mounts has none to add.
unfoldable pub add_init_container_volumes : Slice Container → Slice Volume → Slice Volume
unfolding add_all_volumes
add_init_container_volumes none volumes = volumes
add_init_container_volumes (some containers) volumes =
    appended volumes (add_all_volumes containers (elems volumes))
