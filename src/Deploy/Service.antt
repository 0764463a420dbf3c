-- ===== src/Deploy/Service.antt =====
-- serviceconfig.go: MarshalService, MarshalNode and MarshalNamespace. Times that are not set are the
-- zero of the natural numbers.
pub mod Ports
use board_old.Prelude.{ℕ, zero, suc, String, Bool, true, false, Option, none, some, not, ◌&&◌}
use board_old.Prelude.{List, [], ◌∷◌, if◌then◌else◌}
use Prim.Native.String.{◌++◌}
use board_old.Prelude.Go.{Slice, elems}
use board_old.Prelude.Int.{ℤ, pos, eq_ℤ, to_int32}
use board_old.Prelude.Text.{str_eq}
use board_old.Prelude.Decimal.{itoa}
use board_old.Model.Meta.{ObjectMeta}
use board_old.Model.Node.{Node}
use board_old.Model.Service.{Service, ServicePort, Namespace}
use board_old.Model.ServiceConfig.{ExternalService, NodeType, ConfigServiceStep}

-- `model.ObjectMeta{Name: name}`
abbrev pub named : String → ObjectMeta
named name = record {
  name = name;
  namespace = "";
  creation_timestamp = 0;
  deletion_timestamp = none;
  labels = none;
  annotations = none;
}

-- `port.NodeConfig != (model.NodeType{})`
abbrev pub is_configured : NodeType → Bool
is_configured n =
    not (eq_ℤ n.target_port (pos 0) && eq_ℤ n.node_port (pos 0) && eq_ℤ n.port (pos 0))

abbrev pub port_name : ℕ → String
port_name index = "port" ++ itoa (pos index)

unfoldable pub port_at : ℕ → NodeType → ServicePort
port_at index n = record {
  name = port_name index;
  protocol = "";
  port = to_int32 n.target_port;
  target_port = pos 0;
  node_port = to_int32 n.node_port;
}

-- The loop over the external services, from an index on.
unfoldable pub service_ports : ℕ → List ExternalService → List ServicePort
unfolding port_at
service_ports index [] = []
service_ports index (port ∷ rest) =
    let others = service_ports (suc index) rest in
    if is_configured port.node_config then port_at index port.node_config ∷ others else others

-- The type that the loop leaves: one configured port is enough.
unfoldable pub service_kind : String → List ExternalService → String
service_kind kind [] = kind
service_kind kind (port ∷ rest) =
    service_kind (if is_configured port.node_config then "NodePort" else kind) rest

unfoldable pub marshal_service : Option ConfigServiceStep → Option Service
unfolding service_ports service_kind
marshal_service none = none
marshal_service (some config) = some (record {
  object_meta = named config.service_name;
  ports = some (service_ports 0 (elems config.external_service_list));
  selector = some (("app", config.service_name) ∷ []);
  cluster_ip = config.cluster_ip;
  service_type = service_kind "ClusterIP" (elems config.external_service_list);
  external_ips = none;
  session_affinity_flag = config.session_affinity_flag;
  session_affinity_time = config.session_affinity_time;
  external_name = "";
})

unfoldable pub marshal_node : String → String → Bool → Node
marshal_node node_name label_key sched_flag = record {
  object_meta = record (named node_name) {
    labels = some (if str_eq label_key "" then [] else (label_key, "true") ∷ []);
  };
  node_ip = "";
  unschedulable = sched_flag;
  taints = none;
  status = record {
    capacity = none;
    allocatable = none;
    phase = "";
    conditions = none;
    addresses = none;
  };
}

unfoldable pub marshal_namespace : String → Namespace
marshal_namespace namespace = record { object_meta = named namespace; namespace_phase = "" }
