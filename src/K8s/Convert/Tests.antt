-- ===== src/K8s/Convert/Tests.antt =====
-- Conversions of concrete objects, with the 64-bit integers for quantities.
use board_old.Prelude.Panic.{for_each, index}
use board_old.Model.Meta as Model
use board_old.Model.Deployment.{PodAffinityTerm, Deployment}
use board_old.K8s.Api.Workload as Work
use board_old.K8s.Convert.Pod.{
  zero_affinity, to_k8s_pod_spec, to_affinity, to_pod_affinity, to_k8s_affinity_term,
  to_node_affinity, to_k8s_tolerations,
}
use board_old.K8s.Convert.Deployment.{to_k8s_deployment, to_k8s_pod_template_spec}
use board_old.K8s.Convert.Deployment.RoundTrip.{ReadsAsSent, from-to_deployment}
use board_old.K8s.Convert.Meta.{to_k8s_object_meta}
use board_old.K8s.Convert.Node.{to_k8s_node_taint}
use board_old.Prelude.Go.{append_each}
use board_old.K8s.Convert.Node.{to_k8s_node_taints}
use board_old.K8s.Convert.Meta.{to_k8s_object_meta}
use board_old.Prelude.{◌≡◌, refl, true, false, Option, none, some, [], ◌∷◌, arith}
use board_old.Prelude.Go.{elems, lookup, filled}
use board_old.Prelude.Int.{ℤ, pos}
use board_old.Prelude.Decimal.{InInt64, Parsed, atoi, itoa}
use board_old.Prelude.Decimal.RoundTrip.{atoi-itoa}
use board_old.Model.Meta.{ObjectMeta}
use board_old.Model.Node.{NodeStatus, Node}
use board_old.Model.Storage.{PersistentVolumeK8scli, ConfigMap}
use board_old.K8s.Api.Meta.{Quantities, IsLawful, IsShort}
use board_old.K8s.Api.Node as Api
use board_old.K8s.Api.Storage as Stored
use board_old.Model.Service.{Service}
use board_old.Model.Scaling.{Scale, AutoScale}
use board_old.K8s.Convert.Service.{from_k8s_service, to_k8s_service, timeout_second}
use board_old.K8s.Convert.Service.RoundTrip.{from-to_k8s_service}
use board_old.K8s.Convert.Node.{
  quantity_of, to_k8s_node_status, update_k8s_node_status, update_k8s_node, to_k8s_node_taints,
}
use board_old.K8s.Convert.Node.Status.{lookup-to_k8s_node_status}
use board_old.K8s.Convert.Node.RoundTrip as Node
use board_old.K8s.Convert.Storage.{to_k8s_pv, from_k8s_pv, sent_pv, to_k8s_config_map}
use board_old.K8s.Convert.Storage.RoundTrip as Storage

abbrev accepted : Parsed → Option ℤ
accepted (z, none) = some z
accepted (z, some e) = none

abbrev pub Integers : Quantities
Integers = record {
  Quantity = ℤ;
  new_quantity = λ z. z;
  as_int64 = λ z. (z, true);
  to_string = itoa;
  must_parse = λ s. accepted (atoi s);
}

short_fits : (z : ℤ) → IsShort z → InInt64 z
short_fits z (p, n) = (omega (arith, p), omega (arith, n))

lawful : IsLawful Integers
lawful = record {
  as_int64-new_quantity = λ z h. refl;
  must_parse-itoa = λ z h. (z, rw (atoi-itoa z (short_fits z h)) refl, refl);
}

abbrev meta : ObjectMeta
meta = record {
  name = "node1";
  namespace = "";
  creation_timestamp = 7;
  deletion_timestamp = none;
  labels = none;
  annotations = none;
}

abbrev status : NodeStatus
status = record {
  capacity = some (("cpu", "4") ∷ []);
  allocatable = some (("cpu", "3") ∷ []);
  phase = "Running";
  conditions = none;
  addresses = none;
}

abbrev node : Node
node = record {
  object_meta = meta;
  node_ip = "10.0.0.1";
  unschedulable = true;
  taints =
      some (record { key = "edge"; value = "true"; effect = "NoSchedule"; time_added = none } ∷ []);
  status = status;
}

-- What the node is sent as.
abbrev sent : Api.Node ℤ
sent = record {
  type_meta = record { kind = "Service"; api_version = "v1" };
  object_meta = record {
    name = "node1";
    namespace = "";
    uid = "";
    resource_version = "";
    creation_timestamp = record { time = 7 };
    deletion_timestamp = none;
    labels = none;
    annotations = none;
  };
  spec = record {
    pod_cidr = "";
    unschedulable = true;
    taints =
        some
          (record { key = "edge"; value = "true"; effect = "NoSchedule"; time_added = none } ∷ []);
  };
  status = to_k8s_node_status Integers status;
}

lookup-to_k8s_node_status_example :
    (lookup "cpu" (elems (to_k8s_node_status Integers status).capacity)
      ≡ filled (quantity_of Integers) (some "3") (some (quantity_of Integers "4")))
    × (lookup "cpu" (elems (to_k8s_node_status Integers status).allocatable) ≡ none)
unfolding lookup
lookup-to_k8s_node_status_example =
    lookup-to_k8s_node_status Integers status "cpu" (refl, tt) (refl, tt)

abbrev updated : Api.Node ℤ
updated = record sent { status = update_k8s_node_status Integers sent.status status }

from-update_k8s_node_example : Node.ReadsAsUpdated Integers sent node updated
unfolding update_k8s_node to_k8s_node_taints append_each to_k8s_node_taint
from-update_k8s_node_example = Node.from-update_k8s_node Integers sent node refl

abbrev volume : PersistentVolumeK8scli
volume = record {
  object_meta = record meta { name = "pv1" };
  spec = record {
    capacity = some (("storage", "1024") ∷ []);
    persistent_volume_source = record {
      nfs = some (record { server = "10.0.0.2"; path = "/data"; read_only = false });
      rbd = none;
    };
    access_modes = some ("ReadWriteMany" ∷ []);
    claim_ref = none;
    persistent_volume_reclaim_policy = "Retain";
    storage_class_name = "";
    mount_options = none;
  };
  status = record { phase = "Available"; message = ""; reason = "" };
}

from-to_k8s_pv_example :
    (k : _) × (to_k8s_pv Integers volume ≡ some k)
    × Storage.ReadsAsSent Integers volume k
    × ((from_k8s_pv Integers k).spec.capacity ≡ some (("storage", itoa (pos 1024)) ∷ []))
unfolding lookup itoa
from-to_k8s_pv_example =
    Storage.from-to_k8s_pv Integers lawful volume (pos 1024) (omega arith, omega arith) refl

-- An object of the API for a larger volume.
abbrev larger : Stored.PersistentVolume ℤ
larger = sent_pv Integers volume (("storage", pos 2048) ∷ ("files", pos 9) ∷ [])

abbrev service : Service
service = record {
  object_meta = meta;
  ports = some (
      record {
        name = "http";
        protocol = "TCP";
        port = pos 80;
        target_port = pos 8080;
        node_port = pos 30080;
      }
      ∷ []);
  selector = none;
  cluster_ip = "";
  service_type = "NodePort";
  external_ips = none;
  session_affinity_flag = pos 3;
  session_affinity_time = pos 0;
  external_name = "";
}

from-to_k8s_service_example :
    from_k8s_service (to_k8s_service service)
    ≡ some (record service { session_affinity_flag = pos 1; session_affinity_time = pos 1800 })
unfolding timeout_second
from-to_k8s_service_example = from-to_k8s_service service

abbrev settings : ConfigMap
settings = record { object_meta = meta; contents = some (("mode", "fast") ∷ []) }

abbrev old_settings : Stored.ConfigMap
old_settings = to_k8s_config_map (record settings { contents = none })

abbrev scale : Scale
scale = record {
  object_meta = meta;
  spec = record { replicas = pos 2 };
  status = record { replicas = pos 1; selector = "" };
}

abbrev scaler : ℤ → AutoScale
scaler most = record {
  object_meta = meta;
  spec = record {
    scale_target_ref = record { kind = "Deployment"; name = "web"; api_version = "v1" };
    min_replicas = some (pos 1);
    max_replicas = most;
    target_cpu_utilization_percentage = none;
  };
  status = record {
    observed_generation = none;
    last_scale_time = some 9;
    current_replicas = pos 1;
    desired_replicas = pos 1;
    current_cpu_utilization_percentage = none;
  };
}

-- A deployment whose pods keep apart from those of another application.
abbrev pod_meta : Model.ObjectMeta
pod_meta = record {
  name = "web";
  namespace = "library";
  creation_timestamp = 0;
  deletion_timestamp = none;
  labels = some (("app", "web") ∷ []);
  annotations = none;
}

abbrev apart : PodAffinityTerm
apart = record {
  label_selector = record {
    match_labels = none;
    match_expressions =
        some (record { key = "app"; operator = "In"; values = some ("db" ∷ []) } ∷ []);
  };
  namespaces = none;
  topology_key = "kubernetes.io/hostname";
}

abbrev deployed : Deployment
deployed = record {
  object_meta = pod_meta;
  spec = record {
    replicas = pos 2;
    selector = some (("app", "web") ∷ []);
    template = record {
      object_meta = pod_meta;
      spec = record {
        volumes = none;
        init_containers = none;
        containers = none;
        node_selector = none;
        node_name = "n1";
        host_network = false;
        affinity = record zero_affinity { pod_anti_affinity = some (apart ∷ []) };
        restart_policy = "Always";
        tolerations = none;
      };
    };
    paused = false;
  };
  status = record {
    replicas = pos 0;
    updated_replicas = pos 0;
    available_replicas = pos 0;
    unavailable_replicas = pos 0;
  };
}

abbrev k8s_deployed : Work.Deployment ℤ
k8s_deployed = record {
  type_meta = record { kind = "Deployment"; api_version = "apps/v1" };
  object_meta = to_k8s_object_meta pod_meta;
  spec = record {
    replicas = some (pos 2);
    selector =
        some (record { match_labels = some (("app", "web") ∷ []); match_expressions = none });
    template = record {
      object_meta = to_k8s_object_meta pod_meta;
      spec = record {
        volumes = none;
        init_containers = none;
        containers = none;
        node_selector = none;
        node_name = "n1";
        host_network = false;
        affinity = some (record {
          node_affinity = none;
          pod_affinity = none;
          pod_anti_affinity = some (record {
            required_during_scheduling = some (
                record {
                  label_selector = some (record {
                    match_labels = none;
                    match_expressions =
                        some
                          (record { key = "app"; operator = "In"; values = some ("db" ∷ []) } ∷ []);
                  });
                  namespaces = none;
                  topology_key = "kubernetes.io/hostname";
                }
                ∷ []);
          });
        });
        restart_policy = "Always";
        tolerations = none;
      };
    };
    paused = false;
  };
  status = record {
    replicas = pos 0;
    updated_replicas = pos 0;
    available_replicas = pos 0;
    unavailable_replicas = pos 0;
  };
}

from-to_deployment_example : ReadsAsSent Integers deployed k8s_deployed
unfolding to_k8s_deployment to_k8s_pod_template_spec to_k8s_pod_spec to_affinity to_pod_affinity
    to_k8s_affinity_term to_node_affinity to_k8s_tolerations for_each index append_each
from-to_deployment_example = from-to_deployment Integers deployed refl
