-- ===== src/Nodes/Groups.antt =====
-- node.go: node groups, and the labels by which nodes belong to them.
pub mod Labels
pub mod Membership
pub mod Removal
use board_old.Prelude.{
  ℕ, Bool, true, false, not, ◌&&◌, Option, none, some, String, List, [], ◌∷◌, if◌then◌else◌,
}
use board_old.Prelude.Go.{Slice, GoMap, elems, append, insert, delete, lookup}
use board_old.Prelude.Int.{ℤ, pos, eq_ℤ}
use board_old.Prelude.Text.{str_eq, contains}
use board_old.Prelude.Effect.{Act, ◌>>=◌, ◌>>◌, return, fail, or_panic, each}
use board_old.Model.Node.{Node}
use board_old.Model.NodeGroup.{NodeGroup, group_named}
use board_old.K8s.Api.Meta.{Quantities}
use board_old.K8s.Client.{NodeClient}
use board_old.K8s.Assist.Node as Nodes
use board_old.Dao.NodeGroup.{GroupTable, add_node_group, delete_node_group, get_node_groups}
use board_old.Dao.NodeGroup as Dao
use board_old.Nodes.Store.{Store, on_cluster, on_table}
use board_old.Nodes.Listing.{NodeListResult, get_node_list}

abbrev pub k8s_label : String
k8s_label = "kubernetes.io"

module _ (G : GroupTable) where
  unfoldable pub create_node_group : NodeGroup → Act G.State NodeGroup
  create_node_group group = do id ← add_node_group G group; return (record group { id = id })

  unfoldable pub update_node_group : NodeGroup → List String → Act G.State Bool
  update_node_group n fields =
      if eq_ℤ n.id (pos 0) then fail else do _ ← Dao.update_node_group G n fields; return true

  unfoldable pub delete_node_group_by_id : NodeGroup → Act G.State ℤ
  delete_node_group_by_id n = if eq_ℤ n.id (pos 0) then fail else delete_node_group G n

  unfoldable pub get_node_group : NodeGroup → List String → Act G.State (Option NodeGroup)
  get_node_group group fields = Dao.get_node_group G group fields

  unfoldable pub get_node_group_list : Act G.State (Option (Slice NodeGroup))
  get_node_group_list = get_node_groups G

  -- `nodegroup != nil && nodegroup.ID != 0`
  abbrev pub has_id : Option NodeGroup → Bool
  has_id none = false
  has_id (some group) = not (eq_ℤ group.id (pos 0))

  unfoldable pub node_group_exists : String → Act G.State Bool
  node_group_exists name = do
    group ← Dao.get_node_group G (group_named name) ("name" ∷ [])
    return (has_id group)

-- `node.ObjectMeta.Labels[groupName] = "true"`, which panics on a nil map
abbrev pub put_label : String → GoMap String → Option (GoMap String)
put_label group none = none
put_label group (some labels) = some (some (insert group "true" labels))

-- `delete(node.ObjectMeta.Labels, groupName)`, which does nothing on a nil map
abbrev pub drop_label : String → GoMap String → GoMap String
drop_label group none = none
drop_label group (some labels) = some (delete group labels)

abbrev pub with_labels : Node → GoMap String → Node
with_labels node labels = record node { object_meta = record node.object_meta { labels = labels } }

abbrev pub keep_if : Slice String → String → Bool → Slice String
keep_if groups key exist = if exist then append groups key else groups

unfoldable pub is_member : String → List String → Bool
is_member name [] = false
is_member name (g ∷ rest) = if str_eq name g then true else is_member name rest

module _ (Q : Quantities) (C : NodeClient Q.Quantity) where
  unfoldable pub add_node_to_group : String → String → Act C.State (Unit {0})
  add_node_to_group node_name group_name = do
    node ← Nodes.get Q C node_name
    labels ← or_panic (put_label group_name node.object_meta.labels)
    _ ← Nodes.update Q C (with_labels node labels)
    return tt

  unfoldable pub remove_node_from_group : String → String → Act C.State (Unit {0})
  remove_node_from_group node_name group_name = do
    node ← Nodes.get Q C node_name
    _ ← Nodes.update Q C (with_labels node (drop_label group_name node.object_meta.labels))
    return tt

  module _ (G : GroupTable) where
    abbrev pub State : Type 0
    State = Store C.State G.State

    -- One round of the loop over the labels, which come in no fixed order.
    abbrev pub group_round : Slice String → String → Act State (Slice String)
    group_round groups key =
        if contains key k8s_label
        then return groups
        else do exist ← on_table (node_group_exists G key); return (keep_if groups key exist)

    unfoldable pub groups_of : Slice String → List (String × String) → Act State (Slice String)
    groups_of groups [] = return groups
    groups_of groups ((key, _) ∷ rest) = do groups' ← group_round groups key; groups_of groups' rest

    unfoldable pub get_group_of_node : String → Act State (Slice String)
    get_group_of_node node_name = do
      node ← on_cluster (Nodes.get Q C node_name)
      groups_of none (elems node.object_meta.labels)

    -- The body of the loop of RemoveNodeGroup.
    unfoldable pub remove_from : String → NodeListResult → Act State (Unit {0})
    remove_from group_name info = do
      groups ← get_group_of_node info.node_name
      if is_member group_name (elems groups)
          then on_cluster (remove_node_from_group info.node_name group_name)
          else return tt

    module _ (ping : String → Option Bool) where
      abbrev pub remove_found : String → Option NodeGroup → Act State (Unit {0})
      remove_found group_name none = return tt
      remove_found group_name (some group) = if eq_ℤ group.deleted (pos 1) then return tt else do
        nodes ← on_cluster (get_node_list ping Q C)
        each (remove_from group_name) (elems nodes)
        _ ← on_table (delete_node_group G group)
        return tt

      unfoldable pub remove_node_group : String → Act State (Unit {0})
      remove_node_group group_name = do
        found ← on_table (get_node_group G (group_named group_name) ("name" ∷ []))
        remove_found group_name found
