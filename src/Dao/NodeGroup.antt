-- ===== src/Dao/NodeGroup.antt =====
-- common/dao/node.go: the table of node groups.
pub mod Memory
use board_old.Prelude.{ℕ, ◌≡◌, ◌≢◌, String, Bool, true, false, Option, List, [], ◌∷◌}
use board_old.Prelude.Go.{Slice}
use board_old.Prelude.Int.{ℤ, pos}
use board_old.Prelude.Effect.{Act}
use board_old.Model.NodeGroup.{NodeGroup}
use board_old.Dao.{Answer, found, failed, or_nil, or_zero}

-- The mapper's calls for the table, and the clock. `read` looks for a row that agrees with the given
-- one in the named columns, all of them text; `delete` takes away the row with the same id.
pub record GroupTable : Type 1 where
  pub State : Type 0
  pub now : State → ℕ
  pub insert : State → NodeGroup → Answer ℤ × State
  pub read : State → NodeGroup → List String → Answer NodeGroup
  pub update : State → NodeGroup → List String → Answer ℤ × State
  pub delete : State → NodeGroup → Answer ℤ × State
  pub all : State → Answer (Slice NodeGroup)

-- A row that is read has the name that was asked for, and an id, which is not 0; the row of a
-- deleted id is not read again.
pub record IsLawful (G : GroupTable) : Type 0 where
  pub read-name :
      (s : G.State) (q g : NodeGroup)
      → G.read s q ("name" ∷ []) ≡ found g
      → g.group_name ≡ q.group_name
  pub read-id :
      (s : G.State) (q g : NodeGroup) (fields : List String)
      → G.read s q fields ≡ found g
      → g.id ≢ pos 0
  pub read-delete :
      (s : G.State) (d q g : NodeGroup) (fields : List String)
      → (G.delete s d).0 ≢ failed
      → G.read (G.delete s d).1 q fields ≡ found g
      → g.id ≢ d.id

module _ (G : GroupTable) where
  unfoldable pub add_node_group : NodeGroup → Act G.State ℤ
  add_node_group group s =
      let stamped = record group { creation_time = G.now s; update_time = G.now s } in
      let (answer, s') = G.insert s stamped in (or_zero answer, s')

  unfoldable pub get_node_group : NodeGroup → List String → Act G.State (Option NodeGroup)
  get_node_group group fields s = (or_nil (G.read s group fields), s)

  unfoldable pub update_node_group : NodeGroup → List String → Act G.State ℤ
  update_node_group group fields s =
      let (answer, s') = G.update s (record group { update_time = G.now s }) fields in
      (or_zero answer, s')

  unfoldable pub delete_node_group : NodeGroup → Act G.State ℤ
  delete_node_group group s = let (answer, s') = G.delete s group in (or_zero answer, s')

  unfoldable pub get_node_groups : Act G.State (Option (Slice NodeGroup))
  get_node_groups s = (or_nil (G.all s), s)
