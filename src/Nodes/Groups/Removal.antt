-- ===== src/Nodes/Groups/Removal.antt =====
-- What RemoveNodeGroup leaves.
use board_old.Prelude.{
  arith, ◌≡◌, ◌≢◌, refl, sym, ap, ◌∙◌, Bool, true, false, not, ◌&&◌, Option, none, some, String,
  List, [], ◌∷◌, if◌then◌else◌, Bool-cases, inl, inr,
}
use board_old.Prelude.Go.{Slice, elems}
use board_old.Prelude.Int.{ℤ, eq_ℤ, eq_ℤ→≡, pos}
use board_old.Prelude.Text.{str_eq, str_eq_iff, str_eq_refl, contains}
use mathlib.Core.Path.{subst}
use board_old.Prelude.Effect.{Result, Act, ok, after, ◌>>=◌, ◌>>◌, return, each}
use board_old.Prelude.Effect.Laws.{bind-ok, if-taken, each-ok, AllOf}
use board_old.Model.NodeGroup.{NodeGroup, group_named}
use board_old.K8s.Api.Meta.{Quantities}
use board_old.K8s.Client.{NodeClient}
use board_old.K8s.Client as Client
use board_old.Dao.{Answer, found, no_rows, failed, or_nil, or_zero}
use board_old.Dao.NodeGroup.{GroupTable}
use board_old.Dao.NodeGroup as Dao
use board_old.Nodes.Store.{Store, on_cluster, on_table}
use board_old.Nodes.Listing.{is_some, NodeListResult, get_node_list}
use board_old.Nodes.Listing.Laws.{get_node_list_unlisted}
use board_old.Nodes.Groups.{
  k8s_label, is_member, get_group_of_node, remove_node_from_group, remove_from, remove_found,
  remove_node_group, get_node_group,
}
use board_old.Nodes.Groups.Labels.{label_of, read_label, Relabels, remove_node_from_group_labels}
use board_old.Nodes.Groups.Membership.{
  on_cluster-ok, on_table-ok, is_row, is_group, get_group_of_node_members,
}

id_lem : (z : ℤ) → z ≢ pos 0 → not (eq_ℤ z (pos 0)) ≡ true
id_lem z h = elim (Bool-cases (eq_ℤ z (pos 0))) [
  | inl e ↦ elim (h (eq_ℤ→≡ z (pos 0) e)) [ ]
  | inr e ↦ rw e
]

or_zero-ok : (a : Answer ℤ) {n : ℤ} → or_zero a ≡ ok n → a ≢ failed
or_zero-ok (found m) h = λ e. cc
or_zero-ok no_rows h = λ e. cc
or_zero-ok failed h = cc

unlabelled :
    (label : Option String) {c k : Bool}
    → c ≡ false
    → k ≡ true
    → (is_some label && (not c && k)) ≡ false
    → label ≡ none
unlabelled label hc hk h = ground (arith, hc, hk, h)

module _ (Q : Quantities) (C : NodeClient Q.Quantity) (G : GroupTable) where
  -- The node has no label of the group.
  abbrev pub IsFree : String → String → Store C.State G.State → Type 0
  IsFree group name s = label_of Q C s.cluster name group ≡ none

  abbrev KeepsFree : String → Store C.State G.State → Store C.State G.State → Type 0
  KeepsFree group s s' = (name : String) → IsFree group name s → IsFree group name s'

  -- A change of the cluster after which the node has no label of the group, and neither has a node
  -- that had none.
  abbrev Freed : String → String → Store C.State G.State → Store C.State G.State → Type 0
  Freed group name s s' = (s'.table ≡ s.table) × IsFree group name s' × KeepsFree group s s'

  Relabels-KeepsFree :
      (group name : String) (s s' : Store C.State G.State)
      → Relabels Q C s.cluster s'.cluster name
          (λ key. if str_eq group key then none else label_of Q C s.cluster name key)
      → IsFree group name s' × KeepsFree group s s'
  Relabels-KeepsFree group name s s' (at, others) = (
    at group ∙ ground (arith, str_eq_refl group),
    λ other free. elim (Bool-cases (str_eq name other)) [
      | inl e ↦
          subst (λ m. IsFree group m s') ((str_eq_iff name other).0 e)
            (at group ∙ ground (arith, str_eq_refl group))
      | inr e ↦ ap (λ o. read_label Q C o group) (others other e) ∙ free
    ],
  )

  -- What is left of the group that is the row `group` of the database.
  pub record IsRemoved (group : NodeGroup) (name : String) (nodes : Slice NodeListResult)
      (s' : Store C.State G.State) : Type 0 where
    pub nodes_free : AllOf (λ info. IsFree name info.node_name s') (elems nodes)
    pub row_gone :
        (q g : NodeGroup) (fields : List String)
        → G.read s'.table q fields ≡ found g
        → g.id ≢ group.id

  module _ (L : Client.IsLawful C) where
    dropped :
        (group name : String) (s s' : Store C.State G.State)
        → on_cluster (remove_node_from_group Q C name group) s ≡ (ok tt, s')
        → Freed group name s s'
    dropped group name s s' h =
        let (e, table) = on_cluster-ok (remove_node_from_group Q C name group) s h in
        let relabels = remove_node_from_group_labels Q C L name group s.cluster s'.cluster e in
        let (free, keeps) = Relabels-KeepsFree group name s s' relabels in (table, free, keeps)

    remove_from_step :
        (group : String) (info : NodeListResult) (s s' : Store C.State G.State)
        → contains group k8s_label ≡ false
        → is_group G s.table group ≡ true
        → remove_from Q C G group info s ≡ (ok tt, s')
        → Freed group info.node_name s s'
    unfolding remove_from
    remove_from_step group info s s' plain known h =
        let (groups, s₁, e, r) = bind-ok (get_group_of_node Q C G info.node_name) _ s h in
        let (same, members) = get_group_of_node_members G Q C info.node_name s e in
        elim (if-taken (is_member group (elems groups)) _ _ s₁ r) [
          | inl (_, t) ↦
              subst (λ u. Freed group info.node_name u s') (sym same)
                (dropped group info.node_name s₁ s' t)
          | inr (out, t) ↦
              subst (λ u. Freed group info.node_name s u) (same ∙ λ i. (t i).1)
                (
                  refl,
                  unlabelled (label_of Q C s.cluster info.node_name group) plain known
                      (sym (members group) ∙ out),
                  λ _ free. free,
                )
        ]

    removed_all :
        (group : String) (nodes : List NodeListResult) (s s' : Store C.State G.State)
        → contains group k8s_label ≡ false
        → is_group G s.table group ≡ true
        → each (remove_from Q C G group) nodes s ≡ (ok tt, s')
        → (s'.table ≡ s.table) × AllOf (λ info. IsFree group info.node_name s') nodes
    removed_all group nodes s s' plain known h =
        each-ok (remove_from Q C G group) (λ u. u.table ≡ s.table)
          (λ info u. IsFree group info.node_name u)
          (λ info u u' kept e.
            let (t, free, _) =
              remove_from_step group info u u' plain (ap (λ v. is_group G v group) kept ∙ known)
                e in
            (t ∙ kept, free))
          (λ info other u u' kept free e.
            let (_, _, keeps) =
              remove_from_step group other u u' plain (ap (λ v. is_group G v group) kept ∙ known)
                e in
            keeps info.node_name free)
          nodes s s' refl h

    module _ (ping : String → Option Bool) (LG : Dao.IsLawful G) where
      abbrev sweep :
          String → NodeGroup → Slice NodeListResult → Act (Store C.State G.State) (Unit {0})
      sweep name group nodes = do
        each (remove_from Q C G name) (elems nodes)
        _ ← on_table (Dao.delete_node_group G group)
        return tt

      swept :
          (name : String) (group : NodeGroup) (nodes : Slice NodeListResult)
          (s s' : Store C.State G.State)
          → contains name k8s_label ≡ false
          → is_group G s.table name ≡ true
          → sweep name group nodes s ≡ (ok tt, s')
          → IsRemoved group name nodes s'
      unfolding Dao.delete_node_group
      swept name group nodes s s' plain known h =
          let (_, s₁, e, r) = bind-ok (each (remove_from Q C G name) (elems nodes)) _ s h in
          let (_, free) = removed_all name (elems nodes) s s₁ plain known e in
          let (_, s₂, d, last) = bind-ok (on_table (Dao.delete_node_group G group)) _ s₁ r in
          let (gone, same) = on_table-ok (Dao.delete_node_group G group) s₁ d in
          record {
            nodes_free =
                subst (λ c. AllOf (λ info. label_of Q C c info.node_name name ≡ none) (elems nodes))
                  (sym same ∙ λ i. (last i).1.cluster) free;
            row_gone = λ q g fields e'.
                LG.read-delete s₁.table group q g fields
                  (or_zero-ok (G.delete s₁.table group).0 (λ i. (gone i).0))
                  ((λ i. G.read (((λ j. (gone j).1) ∙ (λ j. (last j).1.table)) i) q fields) ∙ e');
          }

      read_row :
          (name : String) (group : NodeGroup) (s : Store C.State G.State)
          (r : Result (Unit {0}) × Store C.State G.State)
          → G.read s.table (group_named name) ("name" ∷ []) ≡ found group
          → remove_node_group Q C G ping name s ≡ r
          → remove_found Q C G ping name (some group) s ≡ r
      unfolding remove_node_group get_node_group Dao.get_node_group
      read_row name group s r row h =
          subst (λ a. after (or_nil a, s) (remove_found Q C G ping name) ≡ r) row h

      found-is_group :
          (name : String) (group : NodeGroup) (t : G.State)
          → G.read t (group_named name) ("name" ∷ []) ≡ found group
          → is_group G t name ≡ true
      found-is_group name group t row =
          ap is_row row ∙ id_lem group.id (LG.read-id t (group_named name) group ("name" ∷ []) row)

      -- RemoveNodeGroup of a group whose row is found and not marked as deleted, and whose name does
      -- not contain "kubernetes.io", where it returns without an error: no node of the list of
      -- GetNodeList has the label of the group, and no row with the id of the group is read again.
      pub remove_node_group-IsRemoved :
          (name : String) (group : NodeGroup) (nodes : Slice NodeListResult)
          (s s' : Store C.State G.State)
          → contains name k8s_label ≡ false
          → G.read s.table (group_named name) ("name" ∷ []) ≡ found group
          → eq_ℤ group.deleted (pos 1) ≡ false
          → get_node_list ping Q C s.cluster ≡ (ok nodes, s.cluster)
          → remove_node_group Q C G ping name s ≡ (ok tt, s')
          → IsRemoved group name nodes s'
      unfolding remove_node_group
      remove_node_group-IsRemoved name group nodes s s' plain row live listing h =
          elim (if-taken (eq_ℤ group.deleted (pos 1)) _ _ s
            (read_row name group s (ok tt, s') row h)) [
              | inl (marked, _) ↦ cc
              | inr (_, r) ↦
                  swept name group nodes s s' plain (found-is_group name group s.table row) (
                    subst (λ p. after p (sweep name group) ≡ (ok tt, s'))
                      (λ i. ((listing i).0, record s { cluster = (listing i).1 })) r)
            ]

  -- Where the cluster does not list its nodes, and the row is found, not marked as deleted and is
  -- deleted without an error, RemoveNodeGroup returns without an error and has left the cluster, and
  -- so the labels of all nodes, as they were.
  pub remove_node_group_unlisted :
      (ping : String → Option Bool) (name : String) (group : NodeGroup) (n : ℤ)
      (s : Store C.State G.State)
      → C.list s.cluster "" ≡ none
      → G.read s.table (group_named name) ("name" ∷ []) ≡ found group
      → eq_ℤ group.deleted (pos 1) ≡ false
      → (G.delete s.table group).0 ≡ found n
      → remove_node_group Q C G ping name s
        ≡ (ok tt, record s { table = (G.delete s.table group).1 })
  unfolding remove_node_group get_node_group Dao.get_node_group get_node_list each
      Dao.delete_node_group
  remove_node_group_unlisted ping name group n s unlisted row live gone =
      rw (row, live, get_node_list_unlisted ping Q C s.cluster unlisted, gone)
