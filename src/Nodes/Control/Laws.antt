-- ===== src/Nodes/Control/Laws.antt =====
-- When a node may be deleted, and what a drain leaves.
use board_old.Prelude.{
  Option, none, some, ◌≢◌, ◌⊎◌, inl, inr, Bool-cases, arith, ◌≡◌, refl, sym, ap, ◌∙◌, Bool, true,
  false, ◌&&◌, String, List, [], ◌∷◌, ◌++◌, map, append_assoc, append-nil, if◌then◌else◌,
}
use board_old.Prelude.Go.{elems, lookup}
use board_old.Prelude.Text.{contains, IsPart, contains-IsPart}
use board_old.Prelude.Effect.Laws.{AllOf}
use board_old.Prelude.Effect.{ok, err, after, ◌>>=◌, return, each, attempt, caught}
use board_old.Model.Node.{Node}
use board_old.Model.NodeGroup.{NodeControlStatus}
use board_old.Model.Workload.{Pod, PodList}
use board_old.K8s.Api.Meta.{Quantities}
use board_old.K8s.Client.{NodeClient, PodClient}
use board_old.K8s.Assist.Node as Nodes
use board_old.K8s.Assist.Pod as Pods
use board_old.Nodes.Listing.{is_some, has_label, k8s_master_label}
use board_old.Nodes.Control.{
  k8s_namespaces, is_system, instance_of, on_node, control_of, add_pod, add_pods, drain_round,
  drain_node_service_instance, get_node_control_status, control_status,
}

abbrev all_system : List Pod → Bool
all_system [] = true
all_system (pod ∷ rest) = is_system pod && all_system rest

-- The namespace of the pod is a part of the text "kube-system cadvisor".
abbrev pub IsPartNamed : Pod → Type 0
IsPartNamed pod = IsPart pod.object_meta.namespace "kube-system cadvisor"

abbrev pub IsOutside : Pod → Type 0
IsOutside pod =
    (pod.object_meta.namespace ≢ "kube-system") × (pod.object_meta.namespace ≢ "cadvisor")

-- A pod that counts as one of the system, and one that does not.
is_system_cases :
    (pod : Pod)
    → ((is_system pod ≡ true) × IsPartNamed pod) ⊎ ((is_system pod ≡ false) × IsOutside pod)
is_system_cases pod = elim (Bool-cases (is_system pod)) [
  | inl e ↦ inl (e, contains-IsPart k8s_namespaces pod.object_meta.namespace e)
  | inr e ↦ inr (e, (λ same. outside same e refl, λ same. outside same e refl))
]
  where
    outside :
        {name : String}
        → pod.object_meta.namespace ≡ name
        → is_system pod ≡ false
        → contains k8s_namespaces name ≡ true
        → ⊥
    outside same e there = let both = sym e ∙ ap (contains k8s_namespaces) same ∙ there in cc both

-- Some item of a list has a property.
abbrev pub SomeOf : (Pod → Type 0) → List Pod → Type 0
SomeOf P [] = ⊥
SomeOf P (pod ∷ rest) = P pod ⊎ SomeOf P rest

all_system_cases :
    (pods : List Pod)
    → ((all_system pods ≡ true) × AllOf IsPartNamed pods)
      ⊎ ((all_system pods ≡ false) × SomeOf IsOutside pods)
all_system_cases [] = inl (refl, tt)
all_system_cases (pod ∷ rest) = elim (is_system_cases pod) [
  | inl (e, named) ↦ elim (all_system_cases rest) [
    | inl (f, all) ↦ inl (ap (λ b. b && all_system rest) e ∙ f, (named, all))
    | inr (f, some_of) ↦ inr (ap (λ b. b && all_system rest) e ∙ f, inr some_of)
  ]
  | inr (e, out) ↦ inr (ap (λ b. b && all_system rest) e, inl out)
]

add_pods-deletable :
    (status : NodeControlStatus) (pods : List Pod)
    → (add_pods status pods).node_deletable ≡ (status.node_deletable && all_system pods)
unfolding add_pods
add_pods-deletable status [] = ground arith
add_pods-deletable status (pod ∷ rest) = add_pods-deletable (add_pod status pod) rest ∙ ground arith

add_pods-instances :
    (status : NodeControlStatus) (pods : List Pod)
    → elems (add_pods status pods).service_instances
      ≡ elems status.service_instances ++ map instance_of pods
unfolding add_pods
add_pods-instances status [] = sym (append-nil (elems status.service_instances))
add_pods-instances status (pod ∷ rest) =
    add_pods-instances (add_pod status pod) rest
    ∙ append_assoc (elems status.service_instances) (instance_of pod ∷ []) (map instance_of rest)

labelled :
    (node : Node)
    → has_label k8s_master_label node ≡ true
    → lookup k8s_master_label (elems node.object_meta.labels) ≢ none
labelled node e = λ f. let both = sym e ∙ ap is_some f in cc both

is_none : {A : Type 0} (o : Option A) → is_some o ≡ false → o ≡ none
is_none none h = refl
is_none (some a) h = cc

unlabelled :
    (node : Node)
    → has_label k8s_master_label node ≡ false
    → lookup k8s_master_label (elems node.object_meta.labels) ≡ none
unlabelled node e = is_none (lookup k8s_master_label (elems node.object_meta.labels)) e

-- What is shown of a node with the pods that the cluster lists for it.
pub record IsControl (node : Node) (pods : List Pod) (status : NodeControlStatus) : Type 0 where
  pub deletable :
      ((status.node_deletable ≡ true)
        × (lookup k8s_master_label (elems node.object_meta.labels) ≡ none)
        × AllOf IsPartNamed pods)
      ⊎ ((status.node_deletable ≡ false)
          × ((lookup k8s_master_label (elems node.object_meta.labels) ≢ none)
              ⊎ SomeOf IsOutside pods))
  pub instances :
      has_label k8s_master_label node ≡ false
      → elems status.service_instances ≡ map instance_of pods

-- The pods that a drain deletes, in order.
unfoldable drained :
    {State : Type 0} → (State → String → String → Bool × State) → List Pod → State → State
drained delete [] s = s
drained delete (pod ∷ rest) s =
    let s' =
      if is_system pod then s else (delete s pod.object_meta.namespace pod.object_meta.name).1 in
    drained delete rest s'

-- The states that a drain may lead to.
abbrev pub Drained :
    {State : Type 0} → (State → String → String → Bool × State) → List Pod → State → State → Type 0
Drained delete [] s s' = s ≡ s'
Drained delete (pod ∷ rest) s s' =
    (IsPartNamed pod × Drained delete rest s s')
    ⊎ (IsOutside pod
        × Drained delete rest (delete s pod.object_meta.namespace pod.object_meta.name).1 s')

module _ (Q : Quantities) {State : Type 0} (P : PodClient Q.Quantity State) where
  deleted_anyway :
      (p : Bool × State)
      → after (caught {A = Unit {0}} (if p.0 then ok tt else err, p.1)) (λ _. return tt)
        ≡ (ok tt, p.1)
  deleted_anyway (true, s) = refl
  deleted_anyway (false, s) = refl

  drain_round_lem :
      (pod : Pod) (s : State)
      → drain_round Q P pod s ≡ (
        ok tt,
        if is_system pod then s else (P.delete s pod.object_meta.namespace pod.object_meta.name).1,
      )
  unfolding Pods.delete
  drain_round_lem pod s = by_system (is_system pod)
    where
      by_system :
          (b : Bool)
          → (if b then return tt else do
            _ ← attempt (Pods.delete Q P pod.object_meta.namespace pod.object_meta.name)
            return tt)
              s
            ≡ (
              ok tt,
              if b then s else (P.delete s pod.object_meta.namespace pod.object_meta.name).1,
            )
      by_system true = refl
      by_system false = deleted_anyway (P.delete s pod.object_meta.namespace pod.object_meta.name)

  each-drained :
      (pods : List Pod) (s : State)
      → each (drain_round Q P) pods s ≡ (ok tt, drained P.delete pods s)
  unfolding each drained
  each-drained [] s = refl
  each-drained (pod ∷ rest) s =
      ap (λ p. after p (λ _. each (drain_round Q P) rest)) (drain_round_lem pod s)
      ∙ each-drained rest (
          if is_system pod
          then s
          else (P.delete s pod.object_meta.namespace pod.object_meta.name).1)

  drained-Drained :
      (pods : List Pod) (s : State) → Drained P.delete pods s (drained P.delete pods s)
  unfolding drained
  drained-Drained [] s = refl
  drained-Drained (pod ∷ rest) s = elim (is_system_cases pod) [
    | inl (e, named) ↦ rw e (inl (named, drained-Drained rest s))
    | inr (e, out) ↦ rw e (
        inr
          (out, drained-Drained rest (P.delete s pod.object_meta.namespace pod.object_meta.name).1))
  ]

  -- DrainNodeServiceInstance, where the cluster lists the pods of the node, returns without an error
  -- whatever the deletions answer. Pod by pod, in the order of the list, it has either asked for the
  -- deletion of the pod, whose namespace is then neither "kube-system" nor "cadvisor", or left it, and
  -- then its namespace is a part of the text "kube-system cadvisor".
  pub drain_deletes :
      (node_name : String) (pods : PodList) (s : State)
      → Pods.list Q P "" (on_node node_name) s ≡ (ok pods, s)
      → (s' : State) × (drain_node_service_instance Q P node_name s ≡ (ok tt, s'))
        × Drained P.delete (elems pods.items) s s'
  unfolding drain_node_service_instance
  drain_deletes node_name pods s h = (
    drained P.delete (elems pods.items) s,
    ap (λ p. after p (λ found. each (drain_round Q P) (elems found.items))) h
        ∙ each-drained (elems pods.items) s,
    drained-Drained (elems pods.items) s,
  )

module _ (Q : Quantities) (C : NodeClient Q.Quantity) (P : PodClient Q.Quantity C.State) where
  -- GetNodeControlStatus, where the cluster has the node and lists its pods, returns without an error
  -- and changes nothing. A node that is shown as deletable has no label of a master, and the
  -- namespace of each of its pods is a part of the text "kube-system cadvisor"; one that is not is a
  -- master, or has a pod whose namespace is neither "kube-system" nor "cadvisor". The instances shown
  -- are the pods, in order, unless it is a master.
  pub get_node_control_status-IsControl :
      (name : String) (node : Node) (pods : PodList) (s : C.State)
      → Nodes.get Q C name s ≡ (ok node, s)
      → Pods.list Q P "" (on_node name) s ≡ (ok pods, s)
      → (status : NodeControlStatus) × (get_node_control_status Q C P name s ≡ (ok status, s))
        × IsControl node (elems pods.items) status
  unfolding get_node_control_status
  get_node_control_status-IsControl name node pods s got listed =
      let (status, e, c) = by_label (has_label k8s_master_label node) refl in
      (status, ap (λ p. after p (control_status Q C P name)) got ∙ e, c)
    where
      by_pods :
          has_label k8s_master_label node ≡ false
          → ((all_system (elems pods.items) ≡ true) × AllOf IsPartNamed (elems pods.items))
            ⊎ ((all_system (elems pods.items) ≡ false) × SomeOf IsOutside (elems pods.items))
          → (((add_pods (control_of node) (elems pods.items)).node_deletable ≡ true)
              × (lookup k8s_master_label (elems node.object_meta.labels) ≡ none)
              × AllOf IsPartNamed (elems pods.items))
            ⊎ (((add_pods (control_of node) (elems pods.items)).node_deletable ≡ false)
                × ((lookup k8s_master_label (elems node.object_meta.labels) ≢ none)
                    ⊎ SomeOf IsOutside (elems pods.items)))
      by_pods e (inl (f, all)) =
          inl (add_pods-deletable (control_of node) (elems pods.items) ∙ f, unlabelled node e, all)
      by_pods e (inr (f, out)) =
          inr (add_pods-deletable (control_of node) (elems pods.items) ∙ f, inr out)

      by_label :
          (b : Bool)
          → has_label k8s_master_label node ≡ b
          → (status : NodeControlStatus) × (control_status Q C P name node s ≡ (ok status, s))
            × IsControl node (elems pods.items) status
      by_label true e = (
        record (control_of node) { node_type = "master"; node_deletable = false },
        rw e refl,
        record { deletable = inr (refl, inl (labelled node e)); instances = λ f. cc },
      )
      by_label false e = (
        add_pods (control_of node) (elems pods.items),
        rw (e, listed) refl,
        record {
          deletable = by_pods e (all_system_cases (elems pods.items));
          instances = λ f. add_pods-instances (control_of node) (elems pods.items);
        },
      )
