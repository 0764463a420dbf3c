-- ===== src/Deploy/Containers.antt =====
-- serviceconfig.go: setDeploymentContainers, which makes the containers of the cluster from those of
-- a draft.
use board_old.Prelude.{String, none, some, List, [], ◌∷◌, if◌then◌else◌}
use Prim.Native.String.{◌++◌}
use board_old.Prelude.Go.{Slice, elems, append_each, nil_if_empty, insert}
use board_old.Prelude.Int.{ℤ, pos, eq_ℤ, to_int32}
use board_old.Prelude.Text.{str_eq}
use board_old.Model.ServiceConfig.{Container, VolumeMountStruct, EnvStructCont, ImageIndex}
use board_old.Model.Pod.{K8sContainer, VolumeMount, EnvVar, ContainerPort, ResourceRequirements}

-- The command that runs a line of a shell, if there is one.
abbrev pub shell_command : String → Slice String
shell_command line = if str_eq line "" then none else some ("/bin/sh" ∷ [])

abbrev pub shell_args : String → Slice String
shell_args line = if str_eq line "" then none else some ("-c" ∷ line ∷ [])

-- The source of a variable: a key of a configuration map, if one is named.
unfoldable pub env_var : EnvStructCont → EnvVar
env_var e =
    if str_eq e.env_config_map_name ""
    then record { name = e.env_name; value = e.env_value; value_from = none }
    else record {
      name = e.env_name;
      value = "";
      value_from = some (record {
        config_map_key_ref = some (record {
          local_object_reference = record { name = e.env_config_map_name };
          key = e.env_config_map_key;
          optional = none;
        });
      });
    }

-- The loop over the variables: those without a name are left out.
unfoldable pub env_vars : List EnvStructCont → List EnvVar
unfolding env_var
env_vars [] = []
env_vars (e ∷ rest) =
    let others = env_vars rest in if str_eq e.env_name "" then others else env_var e ∷ others

unfoldable pub container_port : ℤ → ContainerPort
container_port port = record {
  name = "";
  host_port = pos 0;
  container_port = to_int32 port;
  protocol = "";
  host_ip = "";
}

-- `registryURI + "/" + ImageName + ":" + ImageTag`
unfoldable pub image_text : String → ImageIndex → String
image_text registry_uri image =
    registry_uri ++ ("/" ++ (image.image_name ++ (":" ++ image.image_tag)))

-- `if value != "" { m[key] = value }`
abbrev pub set_if : String → String → List (String × String) → List (String × String)
set_if key value m = if str_eq value "" then m else insert key value m

unfoldable pub requirements : Container → ResourceRequirements
requirements cont = record {
  requests = some (set_if "memory" cont.mem_request (set_if "cpu" cont.cpu_request []));
  limits = some (
      set_if "nvidia.com/gpu" cont.gpu_limit
        (set_if "memory" cont.mem_limit (set_if "cpu" cont.cpu_limit [])));
}

-- `join` is Go's `filepath.Join` on two elements.
module _ (join : String → String → String) where
  -- A mount of a file, by its flag, is at the file's path and takes the target's file.
  unfoldable pub volume_mount : VolumeMountStruct → VolumeMount
  volume_mount v =
      if eq_ℤ v.container_path_flag (pos 0)
      then record { name = v.volume_name; mount_path = v.container_path; sub_path = "" }
      else record {
        name = v.volume_name;
        mount_path = join v.container_path v.container_file;
        sub_path = v.target_file;
      }

  -- The loop over the mounts: those without a name are left out.
  unfoldable pub volume_mounts : List VolumeMountStruct → List VolumeMount
  unfolding volume_mount
  volume_mounts [] = []
  volume_mounts (v ∷ rest) =
      let others = volume_mounts rest in
      if str_eq v.volume_name "" then others else volume_mount v ∷ others

  -- One round of the loop over the containers. Slices that nothing is appended to stay nil.
  unfoldable pub k8s_container : String → Container → K8sContainer
  unfolding volume_mounts env_vars container_port image_text requirements
  k8s_container registry_uri cont = record {
    name = cont.name;
    image = image_text registry_uri cont.image;
    command = shell_command cont.command;
    args = shell_args cont.command;
    working_dir = cont.working_dir;
    ports = append_each container_port none (elems cont.container_port);
    env = nil_if_empty (env_vars (elems cont.env));
    resources = requirements cont;
    volume_mounts = nil_if_empty (volume_mounts (elems cont.volume_mounts));
    security_context = none;
  }

  unfoldable pub set_deployment_containers : Slice Container → String → Slice K8sContainer
  unfolding k8s_container
  set_deployment_containers none registry_uri = none
  set_deployment_containers (some containers) registry_uri =
      append_each (k8s_container registry_uri) (some []) containers
