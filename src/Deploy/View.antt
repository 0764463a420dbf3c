-- ===== src/Deploy/View.antt =====
-- serviceconfig.go: GetDeploymentContainers, which reads the containers of a deployment back. An
-- index out of range and a nil pointer are panics, `none`.
pub mod Image
pub mod RoundTrip
pub mod Mounts
pub mod Quantities
pub mod Cluster
use board_old.Prelude.{ℕ, zero, suc, ◌+◌, String, Bool, true, false, Option, none, some}
use board_old.Prelude.{List, [], ◌∷◌, not, leb, if◌then◌else◌}
use Prim.Native.String.{len, slice}
use board_old.Prelude.Go.{Slice, GoMap, elems, append_each, nil_if_empty, lookup}
use board_old.Prelude.Int.{ℤ, pos}
use board_old.Prelude.Text.{str_eq}
use board_old.Prelude.Panic.{◌>>=◌, for_each, index, first_index, last_index, substring}
use board_old.Model.ServiceConfig.{Container, VolumeMountStruct, EnvStructCont, ImageIndex}
use board_old.Model.Pod.{
  K8sContainer, VolumeMount, VolumeSource, Volume, EnvVar, EnvVarSource, ContainerPort,
}

-- `if len(cont.Command) > 0 && cont.Command[0] != "" { container.Command = cont.Args[1] }`
unfoldable pub command_of : List String → List String → Option String
unfolding index
command_of [] args = some ""
command_of (c ∷ cs) args = if str_eq c "" then some "" else index args 1

-- The fields of a mount but for those of its target.
abbrev pub mounted : VolumeMount → VolumeMountStruct
mounted v = record {
  volume_type = "";
  volume_name = v.name;
  container_path = v.mount_path;
  container_file = v.sub_path;
  container_path_flag = if str_eq v.sub_path "" then pos 0 else pos 1;
  target_storage_service = "";
  target_path = "";
  target_file = v.sub_path;
  target_pvc = "";
  target_config_map = "";
}

-- The target: the first source that is set.
unfoldable pub with_target : VolumeSource → VolumeMountStruct → VolumeMountStruct
with_target source m = elim source.host_path [
  | some h ↦ record m { volume_type = "hostpath"; target_path = h.path }
  | none ↦ elim source.nfs [
    | some n ↦ record m {
      volume_type = "nfs";
      target_storage_service = n.server;
      target_path = n.path;
    }
    | none ↦ elim source.persistent_volume_claim [
      | some c ↦ record m { volume_type = "pvc"; target_pvc = c.claim_name }
      | none ↦ elim source.config_map [
        | some c ↦ record m {
          volume_type = "configmap";
          target_config_map = c.local_object_reference.name;
        }
        | none ↦ m
      ]
    ]
  ]
]

-- The loop over the mounts, from an index on: a mount with a name takes the volume at its index.
unfoldable pub view_mounts : List Volume → ℕ → List VolumeMount → Option (List VolumeMountStruct)
unfolding with_target index
view_mounts volumes i [] = some []
view_mounts volumes i (v ∷ rest) =
    let others = view_mounts volumes (suc i) rest in
    if str_eq v.name "" then others else do
      volume ← index volumes i
      later ← others
      some (with_target volume.volume_source (mounted v) ∷ later)

-- `none` where the source of a value names no configuration map.
unfoldable pub view_value : EnvVar → Option EnvVarSource → Option EnvStructCont
view_value e none = some (record {
  env_name = e.name;
  env_value = e.value;
  env_config_map_name = "";
  env_config_map_key = "";
})
view_value e (some source) = do
  selector ← source.config_map_key_ref
  some (record {
    env_name = e.name;
    env_value = "";
    env_config_map_name = selector.local_object_reference.name;
    env_config_map_key = selector.key;
  })

-- The loop over the variables.
unfoldable pub view_env : List EnvVar → Option (List EnvStructCont)
unfolding view_value
view_env [] = some []
view_env (e ∷ rest) =
    let others = view_env rest in
    if str_eq e.name ""
    then others
    else do shown ← view_value e e.value_from; later ← others; some (shown ∷ later)

abbrev pub after : Option ℕ → ℕ
after none = 0
after (some i) = i + 1

-- The name lies between the first slash and the last colon, the tag behind the colon.
unfoldable pub view_image : String → Option ImageIndex
unfolding first_index last_index
view_image image = do
  colon ← last_index ":" image
  let slash = after (first_index "/" image)
  tag ← substring image (colon + 1) (len image)
  name ← substring image slash colon
  some (record { image_name = name; image_tag = tag; project_name = "" })

-- `if _, ok := m[key]; ok { field = string(m[key]) }`, and else the zero value
abbrev pub or_empty : Option String → String
or_empty none = ""
or_empty (some v) = v

unfoldable pub quantity : String → GoMap String → String
unfolding lookup
quantity key m = or_empty (lookup key (elems m))

-- One round of the loop over the containers.
unfoldable pub view_container : List Volume → K8sContainer → Option Container
unfolding command_of view_mounts view_env view_image quantity
view_container volumes cont = do
  command ← command_of (elems cont.command) (elems cont.args)
  mounts ← view_mounts volumes 0 (elems cont.volume_mounts)
  env ← view_env (elems cont.env)
  image ← view_image cont.image
  some (record {
    name = cont.name;
    working_dir = cont.working_dir;
    volume_mounts = nil_if_empty mounts;
    image = image;
    env = nil_if_empty env;
    container_port = append_each (λ (p : ContainerPort). p.container_port) none (elems cont.ports);
    command = command;
    cpu_request = quantity "cpu" cont.resources.requests;
    mem_request = quantity "memory" cont.resources.requests;
    cpu_limit = quantity "cpu" cont.resources.limits;
    mem_limit = quantity "memory" cont.resources.limits;
    gpu_limit = quantity "nvidia.com/gpu" cont.resources.limits;
  })

abbrev pub shown : Option (List Container) → Option (Slice Container)
shown none = none
shown (some cs) = some (some cs)

-- A nil slice of containers gives a nil slice.
unfoldable pub get_deployment_containers :
    Slice K8sContainer → Slice Volume → Option (Slice Container)
unfolding view_container for_each
get_deployment_containers none volumes = some none
get_deployment_containers (some containers) volumes =
    shown (for_each (view_container (elems volumes)) containers)
