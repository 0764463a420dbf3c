-- ===== src/Nodes/Members/Laws.antt =====
-- What CreateNode and CreateEdgeNode send to the cluster.
use board_old.Prelude.{
  ◌≡◌, ◌≢◌, refl, sym, Bool-cases, [], ◌∷◌, ap, ◌∙◌, Bool, true, false, Option, none, some, String,
  List, if◌then◌else◌, inl, inr,
}
use board_old.Prelude.Go.{elems, lookup, insert}
use board_old.Prelude.Text.{str_eq, str_eq_iff}
use mathlib.Core.Option.{some-injective}
use mathlib.Core.Path.{subst}
use board_old.Prelude.Effect.{Act, ok, after, calls, return, ◌>>=◌}
use board_old.Prelude.Effect.Laws.{AllOf, bind-ok, panic-ok, calls-ok, if-taken}
use board_old.Model.Node.{Node, NodeList}
use board_old.Model.NodeGroup.{NodeCli, EdgeNodeCli}
use board_old.K8s.Api.Meta.{Quantities}
use board_old.K8s.Api.Node as Api
use board_old.K8s.Client.{NodeClient}
use board_old.K8s.Convert.Node.{to_k8s_node, from_k8s_node}
use board_old.K8s.Convert.Node.RoundTrip.{ReadsAsSent, from-to_k8s_node}
use board_old.K8s.Assist.Node as Nodes
use board_old.Nodes.Listing.{get_node_type, k8s_master_label, k8s_edge_node_label}
use board_old.Nodes.Members.{
  has_node, new_node, fixed_labels, edge_node, node_exists, create_node, create_edge_node,
}

named_apart : (name other : String) → str_eq name other ≡ false → other ≢ name
named_apart name other h e = let both = sym h ∙ (str_eq_iff name other).1 (sym e) in cc both

-- What NodeExists has looked for in vain.
has_node_missed :
    (name : String) (nodes : List Node)
    → has_node name nodes ≡ false
    → AllOf (λ listed_node. listed_node.object_meta.name ≢ name) nodes
unfolding has_node
has_node_missed name [] h = tt
has_node_missed name (n ∷ rest) h = elim (Bool-cases (str_eq name n.object_meta.name)) [
  | inl e ↦ let both = sym (ap (λ b. if b then true else has_node name rest) e) ∙ h in cc both
  | inr e ↦ (
    named_apart name n.object_meta.name e,
    has_node_missed name rest (sym (ap (λ b. if b then true else has_node name rest) e) ∙ h),
  )
]

module _ (Q : Quantities) (C : NodeClient Q.Quantity) where
  -- CreateNode of a name that the cluster lists returns nil without an error and changes nothing.
  create_node_existing :
      (node : NodeCli) (nodes : NodeList) (s : C.State)
      → Nodes.list Q C "" s ≡ (ok nodes, s)
      → has_node node.node_name (elems nodes.items) ≡ true
      → create_node Q C node s ≡ (ok none, s)
  unfolding create_node node_exists
  create_node_existing node nodes s listed there = rw (listed, there) refl

  -- What was sent to the cluster, and what the cluster made of it.
  abbrev pub Sent : NodeCli → C.State → Node → C.State → Type 0
  Sent node s n s' =
      (sent : Api.Node Q.Quantity) × (made : Api.Node Q.Quantity) × (C.create s sent
        ≡ (some made, s'))
      × (from_k8s_node Q made ≡ n)
      × ReadsAsSent Q (new_node node) sent

  ok-injective : {A : Type 0} {a b : A} → ok a ≡ ok b → a ≡ b
  ok-injective e = cc

  create-Sent :
      (node : NodeCli) (s : C.State) {n : Node} {s' : C.State}
      → Nodes.create Q C (new_node node) s ≡ (ok n, s')
      → Sent node s n s'
  unfolding Nodes.create
  create-Sent node s h =
      let (sent, p, q) = panic-ok (to_k8s_node Q (some (new_node node))) _ s h in
      let (made, s₁, c, last) = bind-ok (calls (λ t. C.create t sent)) _ s q in
      (
        sent,
        made,
        calls-ok (λ t. C.create t sent) s c ∙ λ i. (some made, (last i).1),
        ok-injective λ i. (last i).0,
        from-to_k8s_node Q (new_node node) p,
      )

  abbrev decide : NodeCli → Bool → Act C.State (Option Node)
  decide node exists =
      if exists then return none else do made ← Nodes.create Q C (new_node node); return (some made)

  -- CreateNode, where it returns a node, had not found its name, and has created a node that reads as
  -- the one that was asked for.
  create_node_lem :
      (node : NodeCli) (nodes : NodeList) (s : C.State) {n : Node} {s' : C.State}
      → Nodes.list Q C "" s ≡ (ok nodes, s)
      → create_node Q C node s ≡ (ok (some n), s')
      → (has_node node.node_name (elems nodes.items) ≡ false) × Sent node s n s'
  unfolding create_node node_exists
  create_node_lem node nodes s {n} {s'} listed h =
      elim (if-taken (has_node node.node_name (elems nodes.items)) _ _ s (
        subst
          (λ p.
            after (after p (λ found. return (has_node node.node_name (elems found.items))))
              (decide node)
            ≡ (ok (some n), s'))
          listed h)) [
            | inl (_, r) ↦ cc (ok-injective λ i. (r i).0)
            | inr (new, r) ↦
                let (m, s₁, e, last) = bind-ok (Nodes.create Q C (new_node node)) _ s r in
                (
                  new,
                  subst (λ m'. Sent node s m' s')
                      (some-injective _ _ (ok-injective λ i. (last i).0))
                      (subst (Sent node s m) (λ i. (last i).1) (create-Sent node s e)),
                )
          ]

  -- What is sent to the cluster for an edge node.
  pub record IsEdge (edge : EdgeNodeCli) (sent : Node) : Type 0 where
    pub named : sent.object_meta.name ≡ edge.node_name
    pub typed : get_node_type sent ≡ "edge"
    pub hostname :
        lookup "kubernetes.io/hostname" (elems sent.object_meta.labels) ≡ some edge.node_name
    pub registry :
        lookup "edge" (elems sent.object_meta.labels)
        ≡ (if str_eq edge.registry_mode "auto" then some "true" else none)
    pub tainted :
        sent.taints
        ≡ some (
            record { key = "edge"; value = edge.node_name; effect = "NoExecute"; time_added = none }
            ∷ [])

  -- The labels of an edge node, by whether the registry is chosen automatically.
  abbrev AreEdgeLabels : String → Bool → List (String × String) → Type 0
  AreEdgeLabels name auto labels =
      (lookup k8s_master_label labels ≡ none)
      × (lookup k8s_edge_node_label labels ≡ some "")
      × (lookup "kubernetes.io/hostname" labels ≡ some name)
      × (lookup "edge" labels ≡ (if auto then some "true" else none))

  AreEdgeLabels-of :
      (name : String) (auto : Bool)
      → AreEdgeLabels name auto
          (if auto then insert "edge" "true" (fixed_labels name) else fixed_labels name)
  unfolding lookup insert fixed_labels
  AreEdgeLabels-of name true = (refl, refl, refl, refl)
  AreEdgeLabels-of name false = (refl, refl, refl, refl)

  labels-IsEdge :
      (edge : EdgeNodeCli) (sent : Node)
      → sent.object_meta ≡ (new_node (edge_node edge)).object_meta
      → sent.taints ≡ (edge_node edge).taints
      → IsEdge edge sent
  unfolding get_node_type
  labels-IsEdge edge sent m t =
      let auto = str_eq edge.registry_mode "auto" in
      let (master, edge_label, hostname, registry) = AreEdgeLabels-of edge.node_name auto in
      record {
        named = ap (λ x. x.name) m;
        typed = rw (m, master, edge_label) refl;
        hostname = ap (λ x. lookup "kubernetes.io/hostname" (elems x.labels)) m ∙ hostname;
        registry = ap (λ x. lookup "edge" (elems x.labels)) m ∙ registry;
        tainted = t;
      }

  -- CreateEdgeNode, where it returns a node: no node of the list has the name, and what was sent to the
  -- cluster is a node of the type "edge" with that name as its name and as the label of its host, with
  -- one taint, of the key "edge", the name as its value and the effect "NoExecute", and with the label
  -- of the registry just if its mode is "auto".
  pub create_edge_node-IsEdge :
      (edge : EdgeNodeCli) (nodes : NodeList) (s : C.State) {n : Node} {s' : C.State}
      → Nodes.list Q C "" s ≡ (ok nodes, s)
      → create_edge_node Q C edge s ≡ (ok (some n), s')
      → AllOf (λ listed_node. listed_node.object_meta.name ≢ edge.node_name) (elems nodes.items)
        × (sent : Api.Node Q.Quantity) × (made : Api.Node Q.Quantity) × (C.create s sent
            ≡ (some made, s'))
        × (from_k8s_node Q made ≡ n)
        × IsEdge edge (from_k8s_node Q sent)
  unfolding create_edge_node
  create_edge_node-IsEdge edge nodes s listed h =
      let (new, (sent, made, created, shown, (meta, _, taints, _))) =
        create_node_lem (edge_node edge) nodes s listed h in
      (
        has_node_missed edge.node_name (elems nodes.items) new,
        sent,
        made,
        created,
        shown,
        labels-IsEdge edge (from_k8s_node Q sent) meta taints,
      )
