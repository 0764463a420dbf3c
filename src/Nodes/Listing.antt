-- ===== src/Nodes/Listing.antt =====
-- node.go: the list of nodes that the program shows, with type, address and status of each.
pub mod Laws
use board_old.Prelude.{
  ℕ, suc, ◌/◌, Bool, true, false, ◌&&◌, ◌||◌, Option, none, some, String, List, [], ◌∷◌,
  if◌then◌else◌,
}
use board_old.Prelude.Go.{Slice, GoMap, elems, append_each, lookup}
use board_old.Prelude.Int.{ℤ, sub_ℕ}
use board_old.Prelude.Text.{str_eq, equal_fold}
use board_old.Prelude.Effect.{Act, ◌>>=◌, return, attempt, recover}
use board_old.Model.Node.{Node, NodeList, NodeAddress, NodeCondition}
use board_old.Model.NodeGroup.{NodeAvailableResources}
use board_old.K8s.Api.Meta.{Quantities}
use board_old.K8s.Client.{NodeClient}
use board_old.K8s.Assist.Node as Nodes

pub data NodeStatus : Type 0 where
  running unschedulable unknown autonomous_offline : NodeStatus

abbrev pub k8s_master_label : String
k8s_master_label = "node-role.kubernetes.io/master"

abbrev pub k8s_edge_node_label : String
k8s_edge_node_label = "node-role.kubernetes.io/edge"

pub record NodeListResult : Type 0 where
  pub node_name : String
  pub node_ip : String
  pub status : NodeStatus
  pub create_time : ℤ
  pub labels : GoMap String
  pub node_type : String

abbrev pub is_some {ℓ} : {A : Type ℓ} → Option A → Bool
is_some none = false
is_some (some a) = true

-- `_, ok := labels[key]`
abbrev pub has_label : String → Node → Bool
has_label key node = is_some (lookup key (elems node.object_meta.labels))

unfoldable pub get_node_type : Node → String
get_node_type node =
    if has_label k8s_master_label node
    then "master"
    else if has_label k8s_edge_node_label node
    then "edge"
    else "node"

-- The loop of getNodeAddress.
unfoldable pub address_of : String → List NodeAddress → String
address_of t [] = ""
address_of t (addr ∷ rest) = if str_eq addr.address_type t then addr.address else address_of t rest

unfoldable pub get_node_address : Node → String → String
unfolding address_of
get_node_address v t = address_of t (elems v.status.addresses)

-- `strings.EqualFold(string(cond.Type), "Ready") && cond.Status == model.ConditionTrue`
unfoldable pub is_ready : List NodeCondition → Bool
is_ready [] = false
is_ready (cond ∷ rest) =
    (equal_fold cond.condition_type "Ready" && str_eq cond.status "True") || is_ready rest

unfoldable pub node_status : Node → NodeStatus
node_status v =
    if v.unschedulable
    then unschedulable
    else if is_ready (elems v.status.conditions)
    then running
    else unknown

-- `Unix()` of a time in nanoseconds since the zero time, which is 62135596800 seconds before 1970.
abbrev pub unix : ℕ → ℤ
unix t = sub_ℕ (t / 1000000000) 62135596800

abbrev pub name_or : Option String → String → String
name_or (some name) ip = name
name_or none ip = ip

-- `ping` is `utils.PingIPAddr`: whether the address answers, an error being none.
module _ (ping : String → Option Bool) where
  abbrev pub pinged : Option Bool → NodeStatus
  pinged (some false) = autonomous_offline
  pinged (some true) = unknown
  pinged none = unknown

  unfoldable pub edge_status : Node → NodeStatus
  edge_status v = if is_ready (elems v.status.conditions) then running else pinged (ping v.node_ip)

  -- The body of the loop of GetNodeList.
  unfoldable pub node_item : Node → NodeListResult
  unfolding get_node_type get_node_address node_status edge_status
  node_item v =
      let node_type = get_node_type v in
      let edge_name =
        name_or (lookup "kubernetes.io/hostname" (elems v.object_meta.labels)) v.node_ip in
      let is_edge = str_eq node_type "edge" in
      record {
        node_name = if is_edge then edge_name else get_node_address v "Hostname";
        node_ip = get_node_address v "InternalIP";
        status = if is_edge then edge_status v else node_status v;
        create_time = unix v.object_meta.creation_timestamp;
        labels = v.object_meta.labels;
        node_type = node_type;
      }

  abbrev pub listed : Option NodeList → Slice NodeListResult
  listed none = none
  listed (some nodes) = append_each node_item none (elems nodes.items)

  module _ (Q : Quantities) (C : NodeClient Q.Quantity) where
    -- An error of the cluster gives a nil list, and so does a panic on the way to the list, from
    -- which the function recovers. Pings are taken not to panic.
    unfoldable pub get_node_list : Act C.State (Slice NodeListResult)
    unfolding Nodes.list
    get_node_list = recover none (do nodes ← attempt (Nodes.list Q C ""); return (listed nodes))

-- `string(m[key])`, which is empty where the key is not there
abbrev pub text_at : String → GoMap String → String
text_at key m = name_or (lookup key (elems m)) ""

abbrev pub available : Node → NodeAvailableResources
available node = record {
  node_id = ℤ.pos 0;
  node_name = node.object_meta.name;
  cpu_avail = text_at "cpu" node.status.allocatable;
  mem_avail = text_at "memory" node.status.allocatable;
  storage_avail = "";
}

module _ (Q : Quantities) (C : NodeClient Q.Quantity) where
  unfoldable pub get_nodes_available_resources : Act C.State (Slice NodeAvailableResources)
  unfolding Nodes.list
  get_nodes_available_resources = do
    nodes ← Nodes.list Q C ""
    return (append_each available none (elems nodes.items))
