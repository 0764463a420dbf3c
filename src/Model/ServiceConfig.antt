-- ===== src/Model/ServiceConfig.antt =====
-- common/model: container.go, and of service.go, serviceconfig.go and image.go what a service draft
-- is made of.
use board_old.Prelude.{String}
use board_old.Prelude.Go.{Slice}
use board_old.Prelude.Int.{ℤ}

pub record EnvStructCont : Type 0 where
  pub env_name : String
  pub env_value : String
  pub env_config_map_name : String
  pub env_config_map_key : String

pub record VolumeMountStruct : Type 0 where
  pub volume_type : String
  pub volume_name : String
  pub container_path : String
  pub container_file : String
  pub container_path_flag : ℤ
  pub target_storage_service : String
  pub target_path : String
  pub target_file : String
  pub target_pvc : String
  pub target_config_map : String

pub record ImageIndex : Type 0 where
  pub image_name : String
  pub image_tag : String
  pub project_name : String

pub record Container : Type 0 where
  pub name : String
  pub working_dir : String
  pub volume_mounts : Slice VolumeMountStruct
  pub image : ImageIndex
  pub env : Slice EnvStructCont
  pub container_port : Slice ℤ
  pub command : String
  pub cpu_request : String
  pub mem_request : String
  pub cpu_limit : String
  pub mem_limit : String
  pub gpu_limit : String

pub record NodeType : Type 0 where
  pub target_port : ℤ
  pub node_port : ℤ
  pub port : ℤ

pub record LoadBalancer : Type 0 where
  pub external_access : String

pub record ExternalService : Type 0 where
  pub container_name : String
  pub node_config : NodeType
  pub load_balancer_config : LoadBalancer

pub record Affinity : Type 0 where
  pub anti_flag : ℤ
  pub service_names : Slice String

pub record ConfigServiceStep : Type 0 where
  pub project_id : ℤ
  pub project_name : String
  pub service_id : ℤ
  pub service_name : String
  pub service_type : ℤ
  pub public : ℤ
  pub node_selector : String
  pub instance_count : ℤ
  pub cluster_ip : String
  pub container_list : Slice Container
  pub init_container_list : Slice Container
  pub external_service_list : Slice ExternalService
  pub affinity_list : Slice Affinity
  pub session_affinity_flag : ℤ
  pub session_affinity_time : ℤ
