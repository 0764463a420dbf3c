-- ===== src/Nodes/Groups/Labels.antt =====
-- What AddNodeToGroup and RemoveNodeFromGroup do to the labels of the cluster's nodes.
use board_old.Prelude.{
  arith, ◌≡◌, refl, sym, ap, ◌∙◌, false, Option, none, some, String, if◌then◌else◌,
}
use board_old.Prelude.Go.{GoMap, elems, lookup, lookup-insert, lookup-delete}
use board_old.Prelude.Text.{str_eq}
use mathlib.Core.Option.{some-injective}
use mathlib.Core.Path.{subst}
use board_old.Prelude.Effect.{ok, reads, calls}
use board_old.Prelude.Effect.Laws.{bind-ok, panic-ok, reads-ok, calls-ok}
use board_old.Model.Node.{Node}
use board_old.K8s.Api.Meta.{Quantities}
use board_old.K8s.Api.Node as Api
use board_old.K8s.Client.{NodeClient, IsLawful}
use board_old.K8s.Convert.Meta.{from_k8s_object_meta}
use board_old.K8s.Convert.Node.{from_k8s_node, update_k8s_node}
use board_old.K8s.Assist.Node as Nodes
use board_old.Nodes.Groups.{
  put_label, drop_label, with_labels, add_node_to_group, remove_node_from_group,
}

put_label_lem :
    (group : String) (old : GoMap String) {new : GoMap String}
    → put_label group old ≡ some new
    → (key : String)
    → lookup key (elems new) ≡ (if str_eq group key then some "true" else lookup key (elems old))
put_label_lem group none e key = cc
put_label_lem group (some m) e key =
    ap (λ l. lookup key (elems l)) (sym (some-injective _ _ e)) ∙ lookup-insert group key "true" m

drop_label_lem :
    (group : String) (old : GoMap String) (key : String)
    → lookup key (elems (drop_label group old))
      ≡ (if str_eq group key then none else lookup key (elems old))
unfolding lookup
drop_label_lem group none key = ground arith
drop_label_lem group (some m) key = lookup-delete group key m

module _ (Q : Quantities) (C : NodeClient Q.Quantity) where
  abbrev pub read_label : Option (Api.Node Q.Quantity) → String → Option String
  read_label none key = none
  read_label (some k) key = lookup key (elems k.object_meta.labels)

  -- The value of a label of a node of the cluster.
  abbrev pub label_of : C.State → String → String → Option String
  label_of s name key = read_label (C.get s name) key

  -- The labels of one node become those that `f` gives of the old ones, and no other node changes.
  abbrev pub Relabels : C.State → C.State → String → (String → Option String) → Type 0
  Relabels s s' name f =
      ((key : String) → label_of s' name key ≡ f key)
      × ((other : String) → str_eq name other ≡ false → C.get s' other ≡ C.get s other)

  ok-injective : {a b : Node} → ok a ≡ ok b → a ≡ b
  ok-injective e = cc

  from_k8s_node_read :
      (k : Api.Node Q.Quantity) {n : Node}
      → ok (from_k8s_node Q k) ≡ ok n
      → (n.object_meta.name ≡ k.object_meta.name) × (n.object_meta.labels ≡ k.object_meta.labels)
  unfolding from_k8s_node from_k8s_object_meta
  from_k8s_node_read k e =
      subst
        (λ m.
          (m.object_meta.name ≡ k.object_meta.name) × (m.object_meta.labels ≡ k.object_meta.labels))
        (ok-injective e) (refl, refl)

  pub get-ok :
      (name : String) (s : C.State) {n : Node} {s' : C.State}
      → Nodes.get Q C name s ≡ (ok n, s')
      → (k : Api.Node Q.Quantity) × (C.get s name ≡ some k)
        × (n.object_meta.name ≡ k.object_meta.name)
        × (n.object_meta.labels ≡ k.object_meta.labels)
        × (s ≡ s')
  unfolding Nodes.get
  get-ok name s h =
      let (k, s₁, e, r) = bind-ok (reads (λ t. C.get t name)) _ s h in
      let (found, same) = reads-ok (λ t. C.get t name) s e in
      let (m, l) = from_k8s_node_read k (λ i. (r i).0) in (k, found, m, l, same ∙ λ i. (r i).1)

  update_k8s_node_sent :
      (old : Api.Node Q.Quantity) (n : Node) {sent : Api.Node Q.Quantity}
      → update_k8s_node Q (some old) (some n) ≡ some sent
      → (sent.object_meta.name ≡ n.object_meta.name)
        × (sent.object_meta.labels ≡ n.object_meta.labels)
  unfolding update_k8s_node
  update_k8s_node_sent old n e =
      subst
        (λ k.
          (k.object_meta.name ≡ n.object_meta.name) × (k.object_meta.labels ≡ n.object_meta.labels))
        (some-injective _ _ e) (refl, refl)

  module _ (L : IsLawful C) where
    sent-Relabels :
        (n : Node) (sent made : Api.Node Q.Quantity) (s s' : C.State)
        → sent.object_meta.name ≡ n.object_meta.name
        → sent.object_meta.labels ≡ n.object_meta.labels
        → C.update s sent ≡ (some made, s')
        → Relabels s s' n.object_meta.name (λ key. lookup key (elems n.object_meta.labels))
    sent-Relabels n sent made s s' same_name same_labels e = (
      λ key.
          let (stored, kept) = L.get-update_self s sent made (λ i. (e i).0) in
          ap (λ o. read_label o key)
            ((λ i. C.get (sym (λ j. (e j).1) i) (sym same_name i)) ∙ stored)
          ∙ kept key
          ∙ ap (λ l. lookup key (elems l)) same_labels,
      λ other apart.
          (λ i. C.get (sym (λ j. (e j).1) i) other)
          ∙ L.get-update_ne s sent other (ap (λ m. str_eq m other) same_name ∙ apart),
    )

    pub update-Relabels :
        (n : Node) (s : C.State) {n' : Node} {s' : C.State}
        → Nodes.update Q C n s ≡ (ok n', s')
        → Relabels s s' n.object_meta.name (λ key. lookup key (elems n.object_meta.labels))
    unfolding Nodes.update
    update-Relabels n s {n'} {s'} h =
        let (old, s₁, e, r) = bind-ok (reads (λ t. C.get t n.object_meta.name)) _ s h in
        let (_, same) = reads-ok (λ t. C.get t n.object_meta.name) s e in
        let (sent, p, q) = panic-ok (update_k8s_node Q (some old) (some n)) _ s₁ r in
        let (made, s₂, c, last) = bind-ok (calls (λ t. C.update t sent)) _ s₁ q in
        let (m, l) = update_k8s_node_sent old n p in
        let done = calls-ok (λ t. C.update t sent) s₁ c in
        subst
          (λ t. Relabels t s' n.object_meta.name (λ key. lookup key (elems n.object_meta.labels)))
          (sym same) (sent-Relabels n sent made s₁ s' m l (done ∙ λ i. (some made, (last i).1)))

    -- A node that is read and written back with other labels.
    relabelled :
        (name : String) (labels : GoMap String) (n : Node) (s s₁ s' : C.State) {n' : Node}
        → Nodes.get Q C name s ≡ (ok n, s₁)
        → Nodes.update Q C (with_labels n labels) s₁ ≡ (ok n', s')
        → Relabels s s' name (λ key. lookup key (elems labels))
    relabelled name labels n s s₁ s' g u =
        let (k, found, named, _, same) = get-ok name s g in
        subst (λ m. Relabels s s' m (λ key. lookup key (elems labels)))
          (named ∙ L.get-name s name k found)
          (subst (λ t. Relabels t s' n.object_meta.name (λ key. lookup key (elems labels)))
            (sym same) (update-Relabels (with_labels n labels) s₁ u))

    -- What a change of labels makes of those that the node had.
    Relabels-old :
        (name : String) (labels : GoMap String) (n : Node) (s s₁ s' : C.State) {n' : Node}
        (f : Option String → String → Option String)
        → ((key : String)
            → lookup key (elems labels) ≡ f (lookup key (elems n.object_meta.labels)) key)
        → Nodes.get Q C name s ≡ (ok n, s₁)
        → Nodes.update Q C (with_labels n labels) s₁ ≡ (ok n', s')
        → Relabels s s' name (λ key. f (label_of s name key) key)
    Relabels-old name labels n s s₁ s' f made g u =
        let (k, found, _, old, _) = get-ok name s g in
        let (at, others) = relabelled name labels n s s₁ s' g u in
        (
          λ key.
              at key
              ∙ made key
              ∙ ap (λ l. f (lookup key (elems l)) key) old
              ∙ ap (λ o. f (read_label o key) key) (sym found),
          others,
        )

    -- AddNodeToGroup, where it returns without an error, has set the label of the group on the node
    -- to "true"; its other labels and the other nodes are as before.
    pub add_node_to_group_labels :
        (name group : String) (s s' : C.State)
        → add_node_to_group Q C name group s ≡ (ok tt, s')
        → Relabels s s' name (λ key. if str_eq group key then some "true" else label_of s name key)
    unfolding add_node_to_group
    add_node_to_group_labels name group s s' h =
        let (n, s₁, g, r) = bind-ok (Nodes.get Q C name) _ s h in
        let (labels, p, q) = panic-ok (put_label group n.object_meta.labels) _ s₁ r in
        let (_, s₂, u, last) = bind-ok (Nodes.update Q C (with_labels n labels)) _ s₁ q in
        subst
          (λ t.
            Relabels s t name
              (λ key. if str_eq group key then some "true" else label_of s name key))
          (λ i. (last i).1)
          (Relabels-old name labels n s s₁ s₂ (λ o key. if str_eq group key then some "true" else o)
            (put_label_lem group n.object_meta.labels p) g u)

    -- RemoveNodeFromGroup, where it returns without an error, has taken the label of the group from
    -- the node; its other labels and the other nodes are as before.
    pub remove_node_from_group_labels :
        (name group : String) (s s' : C.State)
        → remove_node_from_group Q C name group s ≡ (ok tt, s')
        → Relabels s s' name (λ key. if str_eq group key then none else label_of s name key)
    unfolding remove_node_from_group
    remove_node_from_group_labels name group s s' h =
        let (n, s₁, g, r) = bind-ok (Nodes.get Q C name) _ s h in
        let labels = drop_label group n.object_meta.labels in
        let (_, s₂, u, last) = bind-ok (Nodes.update Q C (with_labels n labels)) _ s₁ r in
        subst
          (λ t. Relabels s t name (λ key. if str_eq group key then none else label_of s name key))
          (λ i. (last i).1)
          (Relabels-old name labels n s s₁ s₂ (λ o key. if str_eq group key then none else o)
            (drop_label_lem group n.object_meta.labels) g u)
