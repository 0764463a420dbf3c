-- ===== src/Deploy/Tests.antt =====
-- A draft with two containers and an init container, and what it becomes.
use board_old.Deploy.Cluster.{
  HasQuantities, IsDeployed, to_k8s-marshal_deployment, to_k8s-marshal_deployment_panics,
}
use board_old.K8s.Convert.Deployment.{to_k8s_deployment, from_k8s_deployment}
use board_old.K8s.Convert.Tests.{Integers}
use board_old.K8s.Api.Workload as Api
use board_old.Prelude.{inl, inr}
use board_old.Prelude.Decimal.{atoi, itoa}
use board_old.Prelude.Go.{insert}
use board_old.Prelude.Go.{append_each}
use board_old.Deploy.Volumes.{volume_source}
use board_old.Prelude.{◌≡◌, refl, String, true, false, none, some, List, [], ◌∷◌}
use board_old.Prelude.{map, inl, arith}
use Prim.Native.String.{◌++◌}
use board_old.Prelude.Go.{elems}
use board_old.Prelude.Int.{ℤ, pos, to_int32}
use board_old.Model.Service.{Service}
use board_old.Model.ServiceConfig.{
  Container, VolumeMountStruct, EnvStructCont, ImageIndex, ExternalService, Affinity,
  ConfigServiceStep,
}
use board_old.Model.Pod.{Volume}
use board_old.Model.Deployment.{Deployment}
use board_old.ServiceConfig.{zero_step}
use board_old.Deploy.Service.{marshal_service, port_at, named}
use board_old.Deploy.Service.Ports as Ports
use board_old.Deploy.Service.Ports.{marshal_service_ports}
use board_old.Deploy.Volumes.{
  add_init_container_volumes, set_deployment_volumes, has_volume, host_path_source,
}
use board_old.Deploy.Volumes.Names.{
  NodupNames, add_init_container_volumes-NodupNames, add_init_container_volumes_complete,
}
use board_old.Deploy.Containers.{set_deployment_containers}
use board_old.Deploy.View.{get_deployment_containers}
use board_old.Deploy.View.Image.{Lacks}
use board_old.Deploy.View.Cluster.{shown_container, get_deployment_containers-marshal_deployment}
use board_old.Deploy.View.Mounts.{normal_mount}
use board_old.Deploy.Pod.{marshal_deployment, pod_template}
use board_old.Deploy.Pod.Placement.{Matches, marshal_service-marshal_deployment}

abbrev join : String → String → String
join a b = a ++ ("/" ++ b)

abbrev data_at : String → VolumeMountStruct
data_at path = record {
  volume_type = "hostpath";
  volume_name = "data";
  container_path = "/data";
  container_file = "";
  container_path_flag = pos 0;
  target_storage_service = "";
  target_path = path;
  target_file = "";
  target_pvc = "";
  target_config_map = "";
}

abbrev settings : VolumeMountStruct
settings = record {
  volume_type = "configmap";
  volume_name = "settings";
  container_path = "/etc";
  container_file = "app.conf";
  container_path_flag = pos 1;
  target_storage_service = "";
  target_path = "";
  target_file = "app.conf";
  target_pvc = "";
  target_config_map = "web";
}

abbrev mounts : List VolumeMountStruct
mounts = data_at "/srv" ∷ settings ∷ []

abbrev mode : EnvStructCont
mode = record {
  env_name = "MODE";
  env_value = "fast";
  env_config_map_name = "";
  env_config_map_key = "";
}

abbrev nginx : ImageIndex
nginx = record { image_name = "library/nginx"; image_tag = "1.11"; project_name = "" }

abbrev container : String → List VolumeMountStruct → Container
container name vs = record {
  name = name;
  working_dir = "";
  volume_mounts = some vs;
  image = nginx;
  env = some (mode ∷ []);
  container_port = some (pos 80 ∷ []);
  command = "nginx";
  cpu_request = "100m";
  mem_request = "";
  cpu_limit = "200m";
  mem_limit = "";
  gpu_limit = "";
}

abbrev web : Container
web = container "web" mounts

abbrev external : ExternalService
external = record {
  container_name = "web";
  node_config = record { target_port = pos 80; node_port = pos 30080; port = pos 80 };
  load_balancer_config = record { external_access = "" };
}

abbrev draft : ConfigServiceStep
draft = record zero_step {
  project_name = "library";
  service_name = "web";
  instance_count = pos 2;
  container_list = some (web ∷ []);
  external_service_list = some (external ∷ external ∷ []);
}

abbrev web_service : Service
web_service = record {
  object_meta = named "web";
  ports = some (port_at 0 (external.node_config) ∷ port_at 1 (external.node_config) ∷ []);
  selector = some (("app", "web") ∷ []);
  cluster_ip = "";
  service_type = "NodePort";
  external_ips = none;
  session_affinity_flag = pos 0;
  session_affinity_time = pos 0;
  external_name = "";
}

marshal_service_ports_example :
    ("NodePort" ≡ Ports.kind_of "ClusterIP" (elems web_service.ports))
    × Ports.NodupNames (elems web_service.ports)
unfolding marshal_service
marshal_service_ports_example = marshal_service_ports draft refl (omega arith)

abbrev data_volume : Volume
data_volume = record { name = "data"; volume_source = host_path_source "/srv" }

add_init_container_volumes-NodupNames_example :
    NodupNames (elems (add_init_container_volumes (some (web ∷ [])) (some (data_volume ∷ []))))
add_init_container_volumes-NodupNames_example =
    add_init_container_volumes-NodupNames (some (web ∷ [])) (some (data_volume ∷ [])) (refl, tt)

add_init_container_volumes_complete_example :
    has_volume "data" (elems (add_init_container_volumes (some (web ∷ [])) none)) ≡ true
unfolding volume_source
add_init_container_volumes_complete_example =
    add_init_container_volumes_complete (data_at "/srv") web (web ∷ []) none (inl refl) (inl refl)
      refl

hub-Lacks : Lacks "/" "hub:1"
hub-Lacks = (refl, (refl, (refl, (refl, (refl, tt)))))

tag-Lacks : Lacks ":" "1.11"
tag-Lacks = (refl, (refl, (refl, (refl, tt))))

abbrev near : Affinity
near = record { anti_flag = pos 0; service_names = some ("db" ∷ []) }

abbrev far : Affinity
far = record { anti_flag = pos 1; service_names = some ("batch" ∷ []) }

-- Of two containers with a volume each, the second is shown with the target of the first: its only
-- mount has the index 0 too.
second_container_shows_first_target :
    get_deployment_containers
      (set_deployment_containers join
        (some (container "web" (data_at "/srv" ∷ []) ∷ container "db" (data_at "/var" ∷ []) ∷ []))
        "hub:1")
      (set_deployment_volumes
        (some (container "web" (data_at "/srv" ∷ []) ∷ container "db" (data_at "/var" ∷ []) ∷ [])))
    ≡ some
        (some (container "web" (data_at "/srv" ∷ []) ∷ container "db" (data_at "/srv" ∷ []) ∷ []))
unfolding get_deployment_containers set_deployment_containers set_deployment_volumes append_each
    to_int32 insert
second_container_shows_first_target = refl

abbrev web_deployment : Deployment
web_deployment = record {
  object_meta = record (named "web") { namespace = "library" };
  spec = record {
    replicas = to_int32 (pos 2);
    selector = some (("app", "web") ∷ []);
    template = pod_template join (λ name. false) draft "hub:1";
    paused = false;
  };
  status = record {
    replicas = pos 0;
    updated_replicas = pos 0;
    available_replicas = pos 0;
    unavailable_replicas = pos 0;
  };
}

marshal_service-marshal_deployment_example : Matches draft web_service web_deployment
unfolding marshal_service marshal_deployment
marshal_service-marshal_deployment_example =
    marshal_service-marshal_deployment join (λ name. false) "hub:1" draft refl refl

-- Integers as texts of quantities.
abbrev sized : Container
sized = record web { cpu_request = "1"; cpu_limit = "2" }

sized-HasQuantities : HasQuantities Integers sized
unfolding atoi
sized-HasQuantities = record {
  cpu_request = inr (pos 1, refl);
  mem_request = inl refl;
  cpu_limit = inr (pos 2, refl);
  mem_limit = inl refl;
  gpu_limit = inl refl;
}

to_k8s-marshal_deployment_example :
    let config = record draft { container_list = some (sized ∷ []) } in
    (d : Api.Deployment ℤ) × (to_k8s_deployment Integers
        (marshal_deployment join (λ n. false) (some config) "reg")
      ≡ some (some d))
    × IsDeployed Integers config d
to_k8s-marshal_deployment_example =
    to_k8s-marshal_deployment Integers join (λ n. false)
      (record draft { container_list = some (sized ∷ []) }) "reg" (sized-HasQuantities, tt) tt

to_k8s-marshal_deployment_panics_example :
    to_k8s_deployment Integers (marshal_deployment join (λ n. false) (some draft) "reg") ≡ none
unfolding atoi
to_k8s-marshal_deployment_panics_example =
    to_k8s-marshal_deployment_panics Integers join (λ n. false) draft "reg" (inl (refl, refl))

sized_sent :
    (d : Api.Deployment ℤ) × (to_k8s_deployment Integers (
        marshal_deployment join
          (λ n. false)
          (some (record draft { container_list = some (sized ∷ []) }))
          "hub:1")
      ≡ some (some d))
sized_sent =
    let (d, e, _) =
      to_k8s-marshal_deployment Integers join (λ n. false)
        (record draft { container_list = some (sized ∷ []) }) "hub:1" (sized-HasQuantities, tt)
        tt in
    (d, e)

get_deployment_containers-marshal_deployment_example :
    get_deployment_containers
      (from_k8s_deployment Integers sized_sent.0).spec.template.spec.containers
      (from_k8s_deployment Integers sized_sent.0).spec.template.spec.volumes
    ≡ some (some (shown_container Integers join sized ∷ []))
unfolding volume_source
get_deployment_containers-marshal_deployment_example =
    get_deployment_containers-marshal_deployment Integers join (λ n. false) draft "hub:1" sized
      hub-Lacks tag-Lacks ((refl, _, refl), ((refl, _, refl), tt)) sized_sent.1

-- Requests and limits come back as the package of quantities prints them.
sized_shown :
    shown_container Integers join sized
    ≡ record sized { volume_mounts = some (map (normal_mount join) mounts) }
unfolding atoi to_int32 itoa
sized_shown = refl
