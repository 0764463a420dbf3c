-- ===== src/Model/Service.antt =====
-- common/model/k8scli.go: services and namespaces of the cluster.
use board_old.Prelude.{String}
use board_old.Prelude.Go.{Slice, GoMap}
use board_old.Prelude.Int.{ℤ}
use board_old.Model.Meta.{ObjectMeta}

pub record Namespace : Type 0 where
  pub object_meta : ObjectMeta
  pub namespace_phase : String

pub record ServicePort : Type 0 where
  pub name : String
  pub protocol : String
  pub port : ℤ
  pub target_port : ℤ
  pub node_port : ℤ

pub record Service : Type 0 where
  pub object_meta : ObjectMeta
  pub ports : Slice ServicePort
  pub selector : GoMap String
  pub cluster_ip : String
  pub service_type : String
  pub external_ips : Slice String
  pub session_affinity_flag : ℤ
  pub session_affinity_time : ℤ
  pub external_name : String
