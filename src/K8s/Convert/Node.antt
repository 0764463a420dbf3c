-- ===== src/K8s/Convert/Node.antt =====
-- convert.go: nodes of the cluster, to the API's type, into an existing object of it, and back.
pub mod Status
pub mod RoundTrip
use board_old.Prelude.{Option, none, some, String, List, [], ◌∷◌, if◌then◌else◌}
use board_old.Prelude.Go.{Slice, elems, append_each, fill}
use board_old.Prelude.Text.{str_eq}
use board_old.Prelude.Decimal.{atoi, itoa}
use board_old.Model.Node.{
  Taint, NodeAddress, NodeCondition, NodeStatus, Node, NodeList, ResourceList,
}
use board_old.K8s.Api.Meta.{Quantities}
use board_old.K8s.Api.Node as Api
use board_old.K8s.Convert.Meta.{new_time, time_of, to_k8s_object_meta, from_k8s_object_meta}

unfoldable pub to_k8s_node_taint : Taint → Api.Taint
to_k8s_node_taint taint = record {
  key = taint.key;
  value = taint.value;
  effect = taint.effect;
  time_added = new_time taint.time_added;
}

unfoldable pub from_k8s_node_taint : Api.Taint → Taint
from_k8s_node_taint taint = record {
  key = taint.key;
  value = taint.value;
  effect = taint.effect;
  time_added = time_of taint.time_added;
}

-- The test against nil changes nothing: the loop leaves a nil slice nil.
unfoldable pub to_k8s_node_taints : Slice Taint → Slice Api.Taint
to_k8s_node_taints taints = append_each to_k8s_node_taint none (elems taints)

unfoldable pub from_k8s_node_taints : Slice Api.Taint → Slice Taint
from_k8s_node_taints taints = append_each from_k8s_node_taint none (elems taints)

-- The bodies of the loops over conditions and addresses.
unfoldable pub to_k8s_condition : NodeCondition → Api.NodeCondition
to_k8s_condition v = record {
  condition_type = v.condition_type;
  status = v.status;
  last_heartbeat_time = record { time = v.last_heartbeat_time };
  last_transition_time = record { time = v.last_transition_time };
  reason = v.reason;
  message = v.message;
}

unfoldable pub from_k8s_condition : Api.NodeCondition → NodeCondition
from_k8s_condition v = record {
  condition_type = v.condition_type;
  status = v.status;
  last_heartbeat_time = v.last_heartbeat_time.time;
  last_transition_time = v.last_transition_time.time;
  reason = v.reason;
  message = v.message;
}

unfoldable pub to_k8s_address : NodeAddress → Api.NodeAddress
to_k8s_address v = record { address_type = v.address_type; address = v.address }

unfoldable pub from_k8s_address : Api.NodeAddress → NodeAddress
from_k8s_address v = record { address_type = v.address_type; address = v.address }

-- `const NodeInternalIP NodeAddressType = "InternalIP"` of the API
abbrev pub node_internal_ip : String
node_internal_ip = "InternalIP"

-- The loop of FromK8sNode: the first internal address, and else what was there before.
unfoldable pub internal_ip : String → List Api.NodeAddress → String
internal_ip nodeip [] = nodeip
internal_ip nodeip (addr ∷ rest) =
    if str_eq addr.address_type node_internal_ip then addr.address else internal_ip nodeip rest

module _ (Q : Quantities) where
  -- `value, _ := strconv.Atoi(string(v))`, then `resource.NewQuantity(int64(value), ...)`
  unfoldable pub quantity_of : String → Q.Quantity
  quantity_of v = Q.new_quantity (atoi v).0

  -- `i, _ := v.AsInt64()`, then `strconv.Itoa(int(i))`
  unfoldable pub text_of : Q.Quantity → String
  text_of v = itoa (Q.as_int64 v).0

  -- The second loop ranges over the allocatable resources and writes into `capacity`, as the
  -- source does; `allocatable` is made and never written.
  unfoldable pub to_k8s_node_status : NodeStatus → Api.NodeStatus Q.Quantity
  to_k8s_node_status nodestatus =
      let capacity = fill quantity_of (elems nodestatus.capacity) [] in
      let capacity' = fill quantity_of (elems nodestatus.allocatable) capacity in
      record {
        capacity = some capacity';
        allocatable = some [];
        phase = nodestatus.phase;
        conditions = append_each to_k8s_condition (some []) (elems nodestatus.conditions);
        addresses = append_each to_k8s_address (some []) (elems nodestatus.addresses);
      }

  -- `if m == nil { dst = nil } else { if dst == nil { dst = make(...) }; for k, v := range m ... }`
  unfoldable pub update_resources :
      Slice (String × Q.Quantity) → ResourceList → Slice (String × Q.Quantity)
  update_resources old none = none
  update_resources old (some new) = some (fill quantity_of new (elems old))

  unfoldable pub update_conditions : Slice NodeCondition → Slice Api.NodeCondition
  update_conditions none = none
  update_conditions (some cs) = append_each to_k8s_condition (some []) cs

  unfoldable pub update_addresses : Slice NodeAddress → Slice Api.NodeAddress
  update_addresses none = none
  update_addresses (some as_) = append_each to_k8s_address (some []) as_

  -- The phase is left as it is.
  unfoldable pub update_k8s_node_status :
      Api.NodeStatus Q.Quantity → NodeStatus → Api.NodeStatus Q.Quantity
  update_k8s_node_status k8s_node_status nodestatus = record k8s_node_status {
    capacity = update_resources k8s_node_status.capacity nodestatus.capacity;
    allocatable = update_resources k8s_node_status.allocatable nodestatus.allocatable;
    conditions = update_conditions nodestatus.conditions;
    addresses = update_addresses nodestatus.addresses;
  }

  unfoldable pub from_k8s_node_status : Api.NodeStatus Q.Quantity → NodeStatus
  from_k8s_node_status nodestatus = record {
    capacity = some (fill text_of (elems nodestatus.capacity) []);
    allocatable = some (fill text_of (elems nodestatus.allocatable) []);
    phase = nodestatus.phase;
    conditions = append_each from_k8s_condition (some []) (elems nodestatus.conditions);
    addresses = append_each from_k8s_address (some []) (elems nodestatus.addresses);
  }

  unfoldable pub to_k8s_node : Option Node → Option (Api.Node Q.Quantity)
  to_k8s_node none = none
  to_k8s_node (some node) = some (record {
    type_meta = record { kind = "Service"; api_version = "v1" };
    object_meta = to_k8s_object_meta node.object_meta;
    spec = record {
      pod_cidr = "";
      unschedulable = node.unschedulable;
      taints = to_k8s_node_taints node.taints;
    };
    status = to_k8s_node_status node.status;
  })

  -- The object that `k8sNode` points to after the call. The annotations are left as they are.
  unfoldable pub update_k8s_node :
      Option (Api.Node Q.Quantity) → Option Node → Option (Api.Node Q.Quantity)
  update_k8s_node k8s_node none = k8s_node
  update_k8s_node none (some node) = none
  update_k8s_node (some k8s_node) (some node) = some (record k8s_node {
    object_meta = record k8s_node.object_meta {
      name = node.object_meta.name;
      namespace = node.object_meta.namespace;
      creation_timestamp = record { time = node.object_meta.creation_timestamp };
      deletion_timestamp = new_time node.object_meta.deletion_timestamp;
      labels = node.object_meta.labels;
    };
    spec = record k8s_node.spec {
      unschedulable = node.unschedulable;
      taints = to_k8s_node_taints node.taints;
    };
    status = update_k8s_node_status k8s_node.status node.status;
  })

  unfoldable pub from_k8s_node : Api.Node Q.Quantity → Node
  from_k8s_node node = record {
    object_meta = from_k8s_object_meta node.object_meta;
    node_ip = internal_ip node.object_meta.name (elems node.status.addresses);
    unschedulable = node.spec.unschedulable;
    taints = from_k8s_node_taints node.spec.taints;
    status = from_k8s_node_status node.status;
  }

  -- FromK8sNode never returns nil, so that every item is kept.
  unfoldable pub from_k8s_node_list : Option (Api.NodeList Q.Quantity) → Option NodeList
  from_k8s_node_list none = none
  from_k8s_node_list (some node_list) =
      some (record { items = append_each from_k8s_node (some []) (elems node_list.items) })
