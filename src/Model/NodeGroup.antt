-- ===== src/Model/NodeGroup.antt =====
-- common/model/node.go: groups of nodes, and nodes as the program's interface shows them.
use board_old.Prelude.{ℕ, String, Bool}
use board_old.Prelude.Go.{Slice, GoMap}
use board_old.Prelude.Int.{ℤ, pos}
use board_old.Model.Node.{Taint}

pub record NodeGroup : Type 0 where
  pub id : ℤ
  pub group_name : String
  pub comment : String
  pub owner_id : ℤ
  pub creation_time : ℕ
  pub update_time : ℕ
  pub deleted : ℤ
  pub project : String
  pub project_id : ℤ

-- `model.NodeGroup{GroupName: name}`
abbrev pub group_named : String → NodeGroup
group_named name = record {
  id = pos 0;
  group_name = name;
  comment = "";
  owner_id = pos 0;
  creation_time = 0;
  update_time = 0;
  deleted = pos 0;
  project = "";
  project_id = pos 0;
}

pub record NodeAvailableResources : Type 0 where
  pub node_id : ℤ
  pub node_name : String
  pub cpu_avail : String
  pub mem_avail : String
  pub storage_avail : String

pub record NodeCli : Type 0 where
  pub node_name : String
  pub node_type : String
  pub node_ip : String
  pub password : String
  pub labels : GoMap String
  pub taints : Slice Taint

pub record ServiceInstance : Type 0 where
  pub project_name : String
  pub service_instance_name : String
  pub owner_reference_kind : Slice String

pub record NodeControlStatus : Type 0 where
  pub node_name : String
  pub node_type : String
  pub node_ip : String
  pub node_phase : String
  pub node_unschedule : Bool
  pub node_deletable : Bool
  pub service_instances : Slice ServiceInstance

pub record EdgeNodeCli : Type 0 where
  pub node_name : String
  pub node_ip : String
  pub cpu_type : String
  pub password : String
  pub master : String
  pub registry_mode : String
