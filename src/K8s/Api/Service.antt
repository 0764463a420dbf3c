-- ===== src/K8s/Api/Service.antt =====
-- k8s.io/api/core/v1: services and namespaces.
use board_old.Prelude.{Option, String}
use board_old.Prelude.Go.{Slice, GoMap}
use board_old.Prelude.Int.{ℤ}
use board_old.K8s.Api.Meta.{TypeMeta, ObjectMeta}

pub record Namespace : Type 0 where
  pub type_meta : TypeMeta
  pub object_meta : ObjectMeta
  pub phase : String

-- `intstr.IntOrString`
pub data Kind : Type 0 where
  int : Kind
  string : Kind

pub record IntOrString : Type 0 where
  pub kind : Kind
  pub int_val : ℤ
  pub str_val : String

pub record ServicePort : Type 0 where
  pub name : String
  pub protocol : String
  pub port : ℤ
  pub node_port : ℤ
  pub target_port : IntOrString

pub record ClientIpConfig : Type 0 where
  pub timeout_seconds : Option ℤ

pub record SessionAffinityConfig : Type 0 where
  pub client_ip : Option ClientIpConfig

pub record ServiceSpec : Type 0 where
  pub ports : Slice ServicePort
  pub selector : GoMap String
  pub cluster_ip : String
  pub service_type : String
  pub external_ips : Slice String
  pub external_name : String
  pub session_affinity : String
  pub session_affinity_config : Option SessionAffinityConfig

pub record Service : Type 0 where
  pub type_meta : TypeMeta
  pub object_meta : ObjectMeta
  pub spec : ServiceSpec
