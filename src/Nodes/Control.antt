-- ===== src/Nodes/Control.antt =====
-- node.go: the state of one node with the pods on it, and taking the pods from a node.
pub mod Laws
use board_old.Prelude.{
  Bool, true, false, not, ◌&&◌, Option, none, some, String, List, [], ◌∷◌, if◌then◌else◌,
}
use Prim.Native.String.{◌++◌}
use board_old.Prelude.Go.{Slice, GoMap, elems, append, append_each}
use board_old.Prelude.Text.{str_eq, contains}
use board_old.Prelude.Effect.{Act, ◌>>=◌, ◌>>◌, return, attempt, each}
use board_old.Model.Node.{Node}
use board_old.Model.NodeGroup.{NodeControlStatus, ServiceInstance}
use board_old.Model.Workload.{Pod, PodList, ListOptions}
use board_old.K8s.Api.Meta.{Quantities}
use board_old.K8s.Client.{NodeClient, PodClient}
use board_old.K8s.Assist.Node as Nodes
use board_old.K8s.Assist.Pod as Pods
use board_old.Nodes.Listing.{is_ready, has_label, k8s_master_label}

abbrev pub k8s_namespaces : String
k8s_namespaces = "kube-system cadvisor"

-- `strings.Contains(K8sNamespaces, pod.Namespace)`
abbrev pub is_system : Pod → Bool
is_system pod = contains k8s_namespaces pod.object_meta.namespace

abbrev pub instance_of : Pod → ServiceInstance
instance_of pod = record {
  project_name = pod.object_meta.namespace;
  service_instance_name = pod.object_meta.name;
  owner_reference_kind = none;
}

abbrev pub no_options : ListOptions
no_options = record {
  label_selector = "";
  field_selector = "";
  watch = false;
  resource_version = "";
  timeout_seconds = none;
}

-- `model.ListOptions{FieldSelector: fmt.Sprintf("spec.nodeName=%s", nodeName)}`
abbrev pub on_node : String → ListOptions
on_node node_name = record no_options { field_selector = "spec.nodeName=" ++ node_name }

abbrev pub node_phase : Node → String
node_phase node =
    if str_eq node.status.phase ""
    then (if is_ready (elems node.status.conditions) then "Running" else "Unknown")
    else node.status.phase

-- GetNodeControlStatus before it looks at the labels.
abbrev pub control_of : Node → NodeControlStatus
control_of node = record {
  node_name = node.object_meta.name;
  node_type = "";
  node_ip = node.node_ip;
  node_phase = node_phase node;
  node_unschedule = node.unschedulable;
  node_deletable = true;
  service_instances = none;
}

-- The loop over the pods of the node.
abbrev pub add_pod : NodeControlStatus → Pod → NodeControlStatus
add_pod status pod = record status {
  service_instances = append status.service_instances (instance_of pod);
  node_deletable = if not (is_system pod) then false else status.node_deletable;
}

unfoldable pub add_pods : NodeControlStatus → List Pod → NodeControlStatus
add_pods status [] = status
add_pods status (pod ∷ rest) = add_pods (add_pod status pod) rest

module _ (Q : Quantities) {State : Type 0} (P : PodClient Q.Quantity State) where
  unfoldable pub get_pods : Act State PodList
  get_pods = Pods.list Q P "" no_options

  unfoldable pub get_node_service_instances : String → Act State (Slice ServiceInstance)
  get_node_service_instances node_name = do
    pods ← Pods.list Q P "" (on_node node_name)
    return (append_each instance_of none (elems pods.items))

  -- The bodies of the loops of RemovePodByNode and of DrainNodeServiceInstance. The second goes on
  -- after an error.
  abbrev pub remove_round : String → Pod → Act State (Unit {0})
  remove_round node pod =
      if str_eq pod.status.host_ip node
      then Pods.delete Q P pod.object_meta.namespace pod.object_meta.name
      else return tt

  unfoldable pub remove_pod_by_node : String → Act State (Unit {0})
  remove_pod_by_node node = do pods ← get_pods; each (remove_round node) (elems pods.items)

  abbrev pub drain_round : Pod → Act State (Unit {0})
  drain_round pod = if is_system pod then return tt else do
    _ ← attempt (Pods.delete Q P pod.object_meta.namespace pod.object_meta.name)
    return tt

  unfoldable pub drain_node_service_instance : String → Act State (Unit {0})
  drain_node_service_instance node_name = do
    pods ← Pods.list Q P "" (on_node node_name)
    each drain_round (elems pods.items)

module _ (Q : Quantities) (C : NodeClient Q.Quantity) (P : PodClient Q.Quantity C.State) where
  -- A master is never deletable, and its pods are not looked at.
  abbrev pub control_status : String → Node → Act C.State NodeControlStatus
  control_status node_name node =
      if has_label k8s_master_label node
      then return (record (control_of node) { node_type = "master"; node_deletable = false })
      else do
        pods ← Pods.list Q P "" (on_node node_name)
        return (add_pods (control_of node) (elems pods.items))

  unfoldable pub get_node_control_status : String → Act C.State NodeControlStatus
  get_node_control_status node_name = do
    node ← Nodes.get Q C node_name
    control_status node_name node
