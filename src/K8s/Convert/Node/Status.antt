-- ===== src/K8s/Convert/Node/Status.antt =====
-- The status of a node: what the conversions keep of capacities, conditions and addresses.
use board_old.Prelude.{none, some, String, List, [], ◌≡◌, refl, ◌∙◌, ap}
use board_old.Prelude.Go.{elems, filled, lookup, lookup-fill}
use board_old.Prelude.Go.{copy_back, NodupKeys}
use board_old.Model.Node.{NodeStatus, NodeCondition, NodeAddress}
use board_old.K8s.Api.Meta.{Quantities}
use board_old.K8s.Api.Node as Api
use board_old.K8s.Convert.Node.{
  quantity_of, to_k8s_node_status, update_k8s_node_status, update_resources, from_k8s_node_status,
  to_k8s_condition, from_k8s_condition, to_k8s_address, from_k8s_address,
}

from-to_condition : (c : NodeCondition) → from_k8s_condition (to_k8s_condition c) ≡ c
unfolding to_k8s_condition from_k8s_condition
from-to_condition c = refl

from-to_address : (a : NodeAddress) → from_k8s_address (to_k8s_address a) ≡ a
unfolding to_k8s_address from_k8s_address
from-to_address a = refl

module _ (Q : Quantities) where
  -- The capacity that is sent at a resource is that of the allocatable resources, and the node's
  -- capacity only where those have none; no allocatable resource is sent at all.
  pub lookup-to_k8s_node_status :
      (s : NodeStatus) (j : String)
      → NodupKeys (elems s.capacity)
      → NodupKeys (elems s.allocatable)
      → (lookup j (elems (to_k8s_node_status Q s).capacity)
          ≡ filled
              (quantity_of Q)
              (lookup j (elems s.allocatable))
              (filled (quantity_of Q) (lookup j (elems s.capacity)) none))
        × (lookup j (elems (to_k8s_node_status Q s).allocatable) ≡ none)
  unfolding to_k8s_node_status lookup
  lookup-to_k8s_node_status s j u v = (
    lookup-fill (quantity_of Q) j (elems s.allocatable) _ v
        ∙ ap (filled (quantity_of Q) (lookup j (elems s.allocatable)))
            (lookup-fill (quantity_of Q) j (elems s.capacity) [] u),
    refl,
  )

  -- An update sets both maps at the resources that the program's node has, each from its own map,
  -- and keeps the others; conditions and addresses are replaced, and the phase stays.
  pub lookup-update_k8s_node_status :
      (k : Api.NodeStatus Q.Quantity) (s : NodeStatus) (j : String)
      {capacity allocatable : List (String × String)}
      → s.capacity ≡ some capacity
      → s.allocatable ≡ some allocatable
      → NodupKeys capacity
      → NodupKeys allocatable
      → let k' = update_k8s_node_status Q k s in
        (lookup j (elems k'.capacity)
          ≡ filled (quantity_of Q) (lookup j capacity) (lookup j (elems k.capacity)))
        × (lookup j (elems k'.allocatable)
            ≡ filled (quantity_of Q) (lookup j allocatable) (lookup j (elems k.allocatable)))
        × (k'.phase ≡ k.phase)
  unfolding update_k8s_node_status update_resources
  lookup-update_k8s_node_status k s j {capacity} {allocatable} ec ea u v = (
    rw (ec, update_resources) (lookup-fill (quantity_of Q) j capacity (elems k.capacity) u),
    rw (ea, update_resources) (lookup-fill (quantity_of Q) j allocatable (elems k.allocatable) v),
    refl,
  )

  -- Phase, conditions and addresses come back from the cluster as they were sent.
  pub from-to_node_status :
      (s : NodeStatus)
      → let s' = from_k8s_node_status Q (to_k8s_node_status Q s) in
        (s'.phase ≡ s.phase)
        × (s'.conditions ≡ some (elems s.conditions))
        × (s'.addresses ≡ some (elems s.addresses))
  unfolding from_k8s_node_status to_k8s_node_status
  from-to_node_status s = (
    refl,
    copy_back from_k8s_condition to_k8s_condition from-to_condition (elems s.conditions),
    copy_back from_k8s_address to_k8s_address from-to_address (elems s.addresses),
  )
