-- ===== src/Nodes/Members.antt =====
-- node.go: which nodes the cluster has, and adding and deleting them.
pub mod Laws
use board_old.Prelude.{Bool, true, false, Option, none, some, String, List, [], ◌∷◌, if◌then◌else◌}
use board_old.Prelude.Go.{Slice, GoMap, elems, append, insert}
use board_old.Prelude.Text.{str_eq}
use board_old.Prelude.Effect.{Act, ◌>>=◌, ◌>>◌, return}
use board_old.Model.Node.{Node, NodeList, Taint}
use board_old.Model.NodeGroup.{NodeCli, EdgeNodeCli}
use board_old.K8s.Api.Meta.{Quantities}
use board_old.K8s.Client.{NodeClient}
use board_old.K8s.Assist.Node as Nodes
use board_old.Nodes.Listing.{k8s_edge_node_label}

-- The loop of NodeExists.
unfoldable pub has_node : String → List Node → Bool
has_node name [] = false
has_node name (nd ∷ rest) = if str_eq name nd.object_meta.name then true else has_node name rest

-- The loop of GetNodebyIP.
unfoldable pub with_ip : String → List Node → Option Node
with_ip ip [] = none
with_ip ip (nd ∷ rest) = if str_eq nd.node_ip ip then some nd else with_ip ip rest

-- `var nodek8s model.Node`, and the assignments of CreateNode
abbrev pub new_node : NodeCli → Node
new_node node = record {
  object_meta = record {
    name = node.node_name;
    namespace = "";
    creation_timestamp = 0;
    deletion_timestamp = none;
    labels = node.labels;
    annotations = none;
  };
  node_ip = "";
  unschedulable = false;
  taints = node.taints;
  status = record {
    capacity = none;
    allocatable = none;
    phase = "";
    conditions = none;
    addresses = none;
  };
}

-- The labels and the taint of an edge node. `make` gives an empty map, not nil.
unfoldable pub fixed_labels : String → List (String × String)
fixed_labels name =
    insert "kubernetes.io/hostname" name (insert "name" name (insert k8s_edge_node_label "" []))

abbrev pub edge_labels : EdgeNodeCli → List (String × String)
edge_labels edge =
    let labels = fixed_labels edge.node_name in
    if str_eq edge.registry_mode "auto" then insert "edge" "true" labels else labels

abbrev pub edge_node : EdgeNodeCli → NodeCli
edge_node edge = record {
  node_name = edge.node_name;
  node_type = "";
  node_ip = "";
  password = "";
  labels = some (edge_labels edge);
  taints = some (
      record { key = "edge"; value = edge.node_name; effect = "NoExecute"; time_added = none }
      ∷ []);
}

module _ (Q : Quantities) (C : NodeClient Q.Quantity) where
  unfoldable pub node_exists : String → Act C.State Bool
  node_exists name = do nodes ← Nodes.list Q C ""; return (has_node name (elems nodes.items))

  unfoldable pub get_node_by_name : String → Act C.State Node
  get_node_by_name name = Nodes.get Q C name

  unfoldable pub get_node_by_ip : String → Act C.State (Option Node)
  get_node_by_ip ip = do nodes ← Nodes.list Q C ""; return (with_ip ip (elems nodes.items))

  -- A node of the name that is there already gives nil without an error.
  unfoldable pub create_node : NodeCli → Act C.State (Option Node)
  create_node node = do
    exists ← node_exists node.node_name
    if exists then return none else do made ← Nodes.create Q C (new_node node); return (some made)

  unfoldable pub delete_node : String → Act C.State Bool
  delete_node name = do
    exists ← node_exists name
    if exists then (do Nodes.delete Q C name; return true) else return false

  unfoldable pub create_edge_node : EdgeNodeCli → Act C.State (Option Node)
  create_edge_node edge = create_node (edge_node edge)

  unfoldable pub get_node_list_by_label : String → Act C.State NodeList
  get_node_list_by_label selector = Nodes.list Q C selector
