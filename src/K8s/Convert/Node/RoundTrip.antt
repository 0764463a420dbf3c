-- ===== src/K8s/Convert/Node/RoundTrip.antt =====
-- A node on its way to the cluster and back.
use board_old.Prelude.{none, some, List, [], ◌∷◌, ◌≡◌, refl, ◌∙◌, ap, map}
use board_old.Prelude.Go.{Slice, elems, append_each, append_each-none, nil_if_empty}
use mathlib.Core.Option.{some-injective}
use mathlib.Core.Path.{subst}
use board_old.Prelude.Go.{map-inverse}
use board_old.Model.Node.{Taint, Node}
use board_old.K8s.Api.Meta.{Quantities}
use board_old.K8s.Api.Node as Api
use board_old.K8s.Convert.Meta.{time_of-new_time, from_k8s_object_meta, from-to_object_meta}
use board_old.K8s.Convert.Node.{
  to_k8s_node_taint, from_k8s_node_taint, to_k8s_node_taints, from_k8s_node_taints, to_k8s_node,
  update_k8s_node, from_k8s_node, from_k8s_node_status, to_k8s_node_status, update_k8s_node_status,
}

from-to_taint : (t : Taint) → from_k8s_node_taint (to_k8s_node_taint t) ≡ t
unfolding to_k8s_node_taint from_k8s_node_taint
from-to_taint t = λ i. record t { time_added = time_of-new_time t.time_added i }

pub elems-nil_if_empty {ℓ} : {A : Type ℓ} (xs : List A) → elems (nil_if_empty xs) ≡ xs
elems-nil_if_empty [] = refl
elems-nil_if_empty (x ∷ xs) = refl

-- Taints come back as they were sent; an empty slice of them comes back nil.
pub from-to_taints :
    (ts : Slice Taint) → from_k8s_node_taints (to_k8s_node_taints ts) ≡ nil_if_empty (elems ts)
unfolding to_k8s_node_taints from_k8s_node_taints
from-to_taints ts =
    ap (λ s. append_each from_k8s_node_taint none (elems s))
      (append_each-none to_k8s_node_taint (elems ts))
    ∙ ap (append_each from_k8s_node_taint none)
        (elems-nil_if_empty (map to_k8s_node_taint (elems ts)))
    ∙ append_each-none from_k8s_node_taint (map to_k8s_node_taint (elems ts))
    ∙ ap nil_if_empty (map-inverse from_k8s_node_taint to_k8s_node_taint from-to_taint (elems ts))

module _ (Q : Quantities) where
  -- How a node `k` of the API, created from `n`, reads.
  abbrev pub ReadsAsSent : Node → Api.Node Q.Quantity → Type 0
  ReadsAsSent n k =
      let n' = from_k8s_node Q k in
      (n'.object_meta ≡ n.object_meta)
      × (n'.unschedulable ≡ n.unschedulable)
      × (n'.taints ≡ nil_if_empty (elems n.taints))
      × (n'.status ≡ from_k8s_node_status Q (to_k8s_node_status Q n.status))

  -- A created node's metadata, its schedulability and its taints are those that were sent (an
  -- empty slice of taints reads as nil), and its status is that which the status conversions make.
  pub from-to_k8s_node :
      (n : Node) {k : Api.Node Q.Quantity} → to_k8s_node Q (some n) ≡ some k → ReadsAsSent n k
  unfolding to_k8s_node from_k8s_node
  from-to_k8s_node n e =
      subst (ReadsAsSent n) (some-injective _ _ e)
        (from-to_object_meta n.object_meta, refl, from-to_taints n.taints, refl)

  -- How the node `k'` reads that `k` becomes by an update with `n`.
  abbrev pub ReadsAsUpdated : Api.Node Q.Quantity → Node → Api.Node Q.Quantity → Type 0
  ReadsAsUpdated k n k' =
      let n' = from_k8s_node Q k' in
      (n'.object_meta ≡ record n.object_meta { annotations = k.object_meta.annotations })
      × (n'.unschedulable ≡ n.unschedulable)
      × (n'.taints ≡ nil_if_empty (elems n.taints))
      × (n'.status ≡ from_k8s_node_status Q (update_k8s_node_status Q k.status n.status))
      × (k'.object_meta.resource_version ≡ k.object_meta.resource_version)
      × (k'.object_meta.uid ≡ k.object_meta.uid)
      × (k'.spec.pod_cidr ≡ k.spec.pod_cidr)

  -- After an update name, namespace, times and labels, schedulability and taints are those of the
  -- program's node; annotations, version and identity stay those of the cluster's.
  pub from-update_k8s_node :
      (k : Api.Node Q.Quantity) (n : Node) {k' : Api.Node Q.Quantity}
      → update_k8s_node Q (some k) (some n) ≡ some k'
      → ReadsAsUpdated k n k'
  unfolding update_k8s_node from_k8s_node from_k8s_object_meta
  from-update_k8s_node k n e =
      let m = n.object_meta in
      subst (ReadsAsUpdated k n) (some-injective _ _ e) (
        λ i. record m {
          deletion_timestamp = time_of-new_time m.deletion_timestamp i;
          annotations = k.object_meta.annotations;
        },
        refl,
        from-to_taints n.taints,
        refl,
        refl,
        refl,
        refl,
      )
