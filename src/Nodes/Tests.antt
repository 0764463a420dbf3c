-- ===== src/Nodes/Tests.antt =====
-- The nodes and their groups: two nodes, of which one is in the group "gpu".
use board_old.Prelude.Effect.Laws.{AllOf}
use board_old.Prelude.{
  ◌≢◌, ◌≡◌, refl, Bool, true, false, not, ◌&&◌, Option, none, some, String, List, [], ◌∷◌, map,
  if◌then◌else◌,
}
use board_old.Prelude.Go.{Slice, elems, lookup, insert, delete, append_each, fill}
use board_old.Prelude.Int.{ℤ, pos}
use board_old.Prelude.Text.{contains, str_eq}
use board_old.Prelude.Effect.{Result, ok, each}
use board_old.Model.NodeGroup.{NodeGroup, group_named, EdgeNodeCli, NodeControlStatus}
use board_old.Model.Workload.{Pod, PodList}
use board_old.Model.Node.{Node, NodeList}
use board_old.K8s.Api.Node as Api
use board_old.K8s.Api.Workload as Work
use board_old.K8s.Client.{NodeClient, PodClient}
use board_old.K8s.Client.Memory as Cluster
use board_old.K8s.Convert.Tests.{Integers}
use board_old.K8s.Convert.Meta.{to_k8s_object_meta, from_k8s_object_meta}
use board_old.K8s.Convert.Node as Convert
use board_old.K8s.Convert.Node.{from_k8s_node, from_k8s_node_list}
use board_old.Dao.NodeGroup as Dao
use board_old.Nodes.Groups as Groups
use board_old.Nodes.Listing as Listing
use board_old.K8s.Convert.Pod.{from_k8s_pod, from_k8s_pod_list}
use board_old.K8s.Assist.Node as Nodes
use board_old.K8s.Assist.Pod as Pods
use board_old.Dao.NodeGroup.Memory as Table
use board_old.Nodes.Store.{Store, on_cluster}
use board_old.Nodes.Listing.{NodeListResult, get_node_list, node_item, get_node_type}
use board_old.Nodes.Groups.{
  get_group_of_node, remove_node_group, add_node_to_group, remove_node_from_group, is_member,
  k8s_label,
}
use board_old.Nodes.Groups.Labels.{Relabels, label_of, add_node_to_group_labels}
use board_old.Nodes.Groups.Membership.{
  on_cluster-ok, get_group_of_node_members, add_then_remove, is_group, counts,
}
use board_old.Nodes.Groups.Removal.{
  IsRemoved, remove_node_group-IsRemoved, remove_node_group_unlisted,
}
use board_old.Nodes.Members as Members
use board_old.Nodes.Members.{create_edge_node, has_node}
use board_old.Nodes.Members.Laws.{IsEdge, create_edge_node-IsEdge}
use board_old.Nodes.Control.{is_system}
use board_old.Nodes.Control.{get_node_control_status, drain_node_service_instance}
use board_old.Nodes.Control.Laws.{
  IsControl, get_node_control_status-IsControl, Drained, drain_deletes,
}

abbrev node : String → List (String × String) → Api.Node ℤ
node name labels = record {
  type_meta = record { kind = "Node"; api_version = "v1" };
  object_meta = record {
    name = name;
    namespace = "";
    uid = "";
    resource_version = "";
    creation_timestamp = record { time = 0 };
    deletion_timestamp = none;
    labels = some labels;
    annotations = none;
  };
  spec = record { pod_cidr = ""; unschedulable = false; taints = none };
  status = record {
    capacity = none;
    allocatable = none;
    phase = "";
    conditions = none;
    addresses = some (record { address_type = "Hostname"; address = name } ∷ []);
  };
}

abbrev C : NodeClient ℤ
C = Cluster.memory ℤ

abbrev gpu : NodeGroup
gpu = record (group_named "gpu") { id = pos 7 }

abbrev start : Store C.State (List NodeGroup)
start = record {
  cluster =
      ("n1", node "n1" (("kubernetes.io/os", "linux") ∷ ("gpu", "true") ∷ []))
      ∷ ("n2", node "n2" [])
      ∷ [];
  table = gpu ∷ [];
}

abbrev no_ping : String → Option Bool
no_ping ip = none

abbrev names : Slice NodeListResult → List String
names nodes = map (λ n. n.node_name) (elems nodes)

-- The run of a computation that has returned.
returned : {S A : Type 0} {a : A} (p : Result A × S) → p.0 ≡ ok a → p ≡ (ok a, p.1)
returned p h = λ i. (h i, p.1)

abbrev removed : Store C.State (List NodeGroup)
removed = (remove_node_group Integers C Table.memory no_ping "gpu" start).1

abbrev shown : Slice NodeListResult
shown =
    append_each (node_item no_ping) none
      (elems (append_each (from_k8s_node Integers) (some []) (map (λ e. e.1) start.cluster)))

runs : (remove_node_group Integers C Table.memory no_ping "gpu" start).0 ≡ ok tt
unfolding remove_node_group Groups.get_node_group Dao.get_node_group Table.find_row get_node_list
    from_k8s_node_list each append_each Groups.remove_from get_group_of_node Nodes.get lookup
    node_item from_k8s_node from_k8s_object_meta Convert.from_k8s_node_status
    Convert.from_k8s_address Dao.delete_node_group Nodes.list Nodes.update
    Convert.from_k8s_condition Convert.from_k8s_node_taints Convert.internal_ip
    Convert.to_k8s_address Convert.to_k8s_node_taints Convert.update_addresses
    Convert.update_conditions Convert.update_k8s_node Convert.update_k8s_node_status
    Convert.update_resources Groups.groups_of is_member Groups.node_group_exists
    remove_node_from_group Listing.address_of Listing.get_node_address get_node_type delete fill
    insert Table.without
runs = refl

remove_node_group-IsRemoved_example : IsRemoved Integers C Table.memory gpu "gpu" shown removed
unfolding Table.find_row get_node_list Nodes.list from_k8s_node_list
remove_node_group-IsRemoved_example =
    remove_node_group-IsRemoved Integers C Table.memory (Cluster.memory-IsLawful ℤ) no_ping
      Table.memory-IsLawful "gpu" gpu shown start removed refl refl refl refl (returned _ runs)

-- A cluster that does not list its nodes.
abbrev silent : NodeClient ℤ
silent = record C { list = λ s selector. none }

remove_node_group_unlisted_example :
    remove_node_group Integers silent Table.memory no_ping "gpu" start
    ≡ (ok tt, record start { table = [] })
unfolding Table.find_row Table.without
remove_node_group_unlisted_example =
    remove_node_group_unlisted Integers silent Table.memory no_ping "gpu" gpu (pos 1) start refl
      refl refl refl

abbrev groups_run : Result (Slice String) × Store C.State (List NodeGroup)
groups_run = get_group_of_node Integers C Table.memory "n1" start

groups_run_lem : groups_run.0 ≡ ok (some ("gpu" ∷ []))
unfolding get_group_of_node Groups.groups_of Groups.node_group_exists Dao.get_node_group Nodes.get
    from_k8s_node from_k8s_object_meta Table.find_row lookup
groups_run_lem = refl

get_group_of_node_members_example :
    (start ≡ groups_run.1)
    × ((g : String)
        → is_member g ("gpu" ∷ []) ≡ (
            Listing.is_some (label_of Integers C start.cluster "n1" g)
            && (not (contains g k8s_label) && is_group Table.memory start.table g)))
get_group_of_node_members_example =
    get_group_of_node_members Table.memory Integers C "n1" start (returned _ groups_run_lem)

abbrev added : Store C.State (List NodeGroup)
added = (on_cluster (add_node_to_group Integers C "n2" "gpu") start).1

add_runs : (on_cluster (add_node_to_group Integers C "n2" "gpu") start).0 ≡ ok tt
unfolding add_node_to_group Nodes.get Nodes.update from_k8s_node from_k8s_object_meta lookup insert
    Convert.update_k8s_node
add_runs = refl

abbrev groups_after : Result (Slice String) × Store C.State (List NodeGroup)
groups_after = get_group_of_node Integers C Table.memory "n2" added

groups_after_lem : groups_after.0 ≡ ok (some ("gpu" ∷ []))
unfolding add_node_to_group Nodes.get Nodes.update from_k8s_node from_k8s_object_meta lookup insert
    Convert.update_k8s_node get_group_of_node Groups.groups_of Groups.node_group_exists
    Dao.get_node_group Table.find_row
groups_after_lem = refl

add_node_to_group_labels_example :
    Relabels Integers C start.cluster added.cluster "n2"
      (λ key. if str_eq "gpu" key then some "true" else label_of Integers C start.cluster "n2" key)
add_node_to_group_labels_example =
    add_node_to_group_labels Integers C (Cluster.memory-IsLawful ℤ) "n2" "gpu" start.cluster
      added.cluster
      (on_cluster-ok (add_node_to_group Integers C "n2" "gpu") start (returned _ add_runs)).0

abbrev dropped : Store C.State (List NodeGroup)
dropped = (on_cluster (remove_node_from_group Integers C "n2" "gpu") groups_after.1).1

drop_runs : (on_cluster (remove_node_from_group Integers C "n2" "gpu") groups_after.1).0 ≡ ok tt
unfolding add_node_to_group Nodes.get Nodes.update from_k8s_node from_k8s_object_meta lookup insert
    delete Convert.update_k8s_node get_group_of_node Groups.groups_of Groups.node_group_exists
    Dao.get_node_group Table.find_row remove_node_from_group
drop_runs = refl

abbrev groups_dropped : Result (Slice String) × Store C.State (List NodeGroup)
groups_dropped = get_group_of_node Integers C Table.memory "n2" dropped

groups_dropped_lem : groups_dropped.0 ≡ ok none
unfolding add_node_to_group Nodes.get Nodes.update from_k8s_node from_k8s_object_meta lookup insert
    delete Convert.update_k8s_node get_group_of_node Groups.groups_of Groups.node_group_exists
    Dao.get_node_group Table.find_row remove_node_from_group
groups_dropped_lem = refl

add_then_remove_example :
    (is_member "gpu" ("gpu" ∷ []) ≡ counts Table.memory Integers C start.table "gpu")
    × (is_member "gpu" [] ≡ false)
add_then_remove_example =
    add_then_remove Table.memory Integers C (Cluster.memory-IsLawful ℤ) "n2" "gpu" start added
      groups_after.1 dropped groups_dropped.1 (returned _ add_runs) (returned _ groups_after_lem)
      (returned _ drop_runs) (returned _ groups_dropped_lem)

abbrev edge : EdgeNodeCli
edge = record {
  node_name = "e1";
  node_ip = "10.0.0.9";
  cpu_type = "arm64";
  password = "";
  master = "";
  registry_mode = "auto";
}

abbrev with_edge : Result (Option Node) × C.State
with_edge = create_edge_node Integers C edge start.cluster

abbrev listed : NodeList
listed = record {
  items = append_each (from_k8s_node Integers) (some []) (map (λ e. e.1) start.cluster);
}

abbrev with_pod : Work.Pod ℤ
with_pod = record {
  type_meta = record { kind = "Pod"; api_version = "v1" };
  object_meta = record (node "web-1" []).object_meta { namespace = "library" };
  spec = record {
    volumes = none;
    init_containers = none;
    containers = none;
    node_selector = none;
    node_name = "n1";
    host_network = false;
    affinity = none;
    restart_policy = "";
    tolerations = none;
  };
  status = record {
    phase = "Running";
    reason = "";
    host_ip = "10.0.0.1";
    pod_ip = "";
    start_time = none;
  };
}

abbrev P : PodClient ℤ C.State
P = record {
  list = λ s namespace opts. some (record { items = some (with_pod ∷ []) });
  delete = λ s namespace name. (false, s);
}

abbrev pods : PodList
pods = record { items = append_each (from_k8s_pod Integers) (some []) (with_pod ∷ []) }

drain_deletes_example :
    (s' : C.State) × (drain_node_service_instance Integers P "n1" start.cluster ≡ (ok tt, s'))
    × Drained P.delete (elems pods.items) start.cluster s'
unfolding Pods.list from_k8s_pod_list
drain_deletes_example = drain_deletes Integers P "n1" pods start.cluster refl

get_node_control_status-IsControl_example :
    (status : NodeControlStatus) × (get_node_control_status Integers C P "n1" start.cluster
      ≡ (ok status, start.cluster))
    × IsControl
        (from_k8s_node Integers (node "n1" (("kubernetes.io/os", "linux") ∷ ("gpu", "true") ∷ [])))
        (elems pods.items)
        status
unfolding Pods.list from_k8s_pod_list Nodes.get lookup
get_node_control_status-IsControl_example =
    get_node_control_status-IsControl Integers C P "n1"
      (from_k8s_node Integers (node "n1" (("kubernetes.io/os", "linux") ∷ ("gpu", "true") ∷ [])))
      pods start.cluster refl refl

abbrev edge_made : Api.Node ℤ
edge_made = record {
  type_meta = record { kind = "Service"; api_version = "v1" };
  object_meta = record (node "e1" []).object_meta {
    labels = some (
        ("node-role.kubernetes.io/edge", "")
        ∷ ("name", "e1")
        ∷ ("kubernetes.io/hostname", "e1")
        ∷ ("edge", "true")
        ∷ []);
  };
  spec = record {
    pod_cidr = "";
    unschedulable = false;
    taints =
        some (record { key = "edge"; value = "e1"; effect = "NoExecute"; time_added = none } ∷ []);
  };
  status = record {
    capacity = some [];
    allocatable = some [];
    phase = "";
    conditions = some [];
    addresses = some [];
  };
}

edge_runs : with_edge.0 ≡ ok (some (from_k8s_node Integers edge_made))
unfolding create_edge_node Members.create_node Members.node_exists Nodes.list Nodes.create
    from_k8s_node_list has_node from_k8s_node from_k8s_object_meta Convert.to_k8s_node
    Members.fixed_labels insert to_k8s_object_meta Convert.to_k8s_node_taints
    Convert.to_k8s_node_status Convert.to_k8s_node_taint append_each fill
edge_runs = refl

create_edge_node-IsEdge_example :
    AllOf (λ n. n.object_meta.name ≢ "e1") (elems listed.items)
    × (sent : Api.Node ℤ) × (made : Api.Node ℤ) × (C.create start.cluster sent
        ≡ (some made, with_edge.1))
    × (from_k8s_node Integers made ≡ from_k8s_node Integers edge_made)
    × IsEdge Integers C edge (from_k8s_node Integers sent)
unfolding Nodes.list from_k8s_node_list
create_edge_node-IsEdge_example =
    create_edge_node-IsEdge Integers C edge listed start.cluster refl (returned _ edge_runs)

-- A pod of a project named by a part of the text counts as one of the system.
abbrev cad : Pod
cad = record (from_k8s_pod Integers with_pod) {
  object_meta = record (from_k8s_pod Integers with_pod).object_meta { namespace = "cad" };
}

part_counts_as_system : is_system cad ≡ true
part_counts_as_system = refl
