-- ===== src/K8s/Convert/Service.antt =====
-- convert.go: services and namespaces. Go's `int` is 64 bits wide, the session timeout 32.
pub mod RoundTrip
use board_old.Prelude.{Option, none, some, String, List, [], ◌∷◌, if◌then◌else◌}
use board_old.Prelude.Go.{Slice, elems, append_each}
use board_old.Prelude.Int.{ℤ, pos, eq_ℤ, to_int32}
use board_old.Prelude.Text.{str_eq}
use board_old.Model.Service.{ServicePort, Service, Namespace}
use board_old.K8s.Api.Service as Api
use board_old.K8s.Convert.Meta.{to_k8s_object_meta, from_k8s_object_meta}

pub to_k8s_namespace : Namespace → Api.Namespace
to_k8s_namespace ns = record {
  type_meta = record { kind = "Namespace"; api_version = "v1" };
  object_meta = to_k8s_object_meta ns.object_meta;
  phase = "";
}

pub from_k8s_namespace : Api.Namespace → Namespace
from_k8s_namespace ns = record {
  object_meta = from_k8s_object_meta ns.object_meta;
  namespace_phase = ns.phase;
}

-- `const ServiceAffinityClientIP`, `ServiceAffinityNone` of the API
abbrev pub session_affinity_client_ip : String
session_affinity_client_ip = "ClientIP"

abbrev pub service_affinity_none : String
service_affinity_none = "None"

-- The bodies of the loops over ports.
pub to_k8s_port : ServicePort → Api.ServicePort
to_k8s_port port = record {
  name = port.name;
  protocol = port.protocol;
  port = port.port;
  node_port = port.node_port;
  target_port = record { kind = Api.int; int_val = port.target_port; str_val = "" };
}

pub from_k8s_port : Api.ServicePort → ServicePort
from_k8s_port port = record {
  name = port.name;
  protocol = port.protocol;
  port = port.port;
  target_port = port.target_port.int_val;
  node_port = port.node_port;
}

-- The timeout that the code has computed where it builds the affinity: 0 with the flag down.
unfoldable pub timeout_second : Service → ℤ
timeout_second s =
    if eq_ℤ s.session_affinity_flag (pos 0)
    then pos 0
    else if eq_ℤ s.session_affinity_time (pos 0)
    then pos 1800
    else to_int32 s.session_affinity_time

pub to_k8s_service : Service → Api.Service
to_k8s_service s = record {
  type_meta = record { kind = "Service"; api_version = "v1" };
  object_meta = to_k8s_object_meta s.object_meta;
  spec = record {
    ports = append_each to_k8s_port (some []) (elems s.ports);
    selector = s.selector;
    cluster_ip = s.cluster_ip;
    service_type = s.service_type;
    external_ips = s.external_ips;
    external_name = s.external_name;
    session_affinity =
        if eq_ℤ s.session_affinity_flag (pos 0)
        then service_affinity_none
        else session_affinity_client_ip;
    session_affinity_config =
        some (record { client_ip = some (record { timeout_seconds = some (timeout_second s) }) });
  };
}

-- `*SessionAffinityConfig.ClientIP.TimeoutSeconds`; `none` where a pointer on the way is nil, which
-- is a panic.
pub timeout_of : Option Api.SessionAffinityConfig → Option ℤ
timeout_of none = none
timeout_of (some config) = elim config.client_ip [ none ↦ none | some ip ↦ ip.timeout_seconds ]

abbrev with_session : Api.Service → ℤ → ℤ → Service
with_session s flag time = record {
  object_meta = from_k8s_object_meta s.object_meta;
  ports = append_each from_k8s_port (some []) (elems s.spec.ports);
  selector = s.spec.selector;
  cluster_ip = s.spec.cluster_ip;
  service_type = s.spec.service_type;
  external_ips = s.spec.external_ips;
  session_affinity_flag = flag;
  session_affinity_time = time;
  external_name = s.spec.external_name;
}

abbrev timed : Api.Service → Option ℤ → Option Service
timed s none = none
timed s (some time) = some (with_session s (pos 1) time)

-- `none` is a panic.
pub from_k8s_service : Api.Service → Option Service
unfolding timeout_of
from_k8s_service s =
    if str_eq s.spec.session_affinity session_affinity_client_ip
    then timed s (timeout_of s.spec.session_affinity_config)
    else some (with_session s (pos 0) (pos 0))
