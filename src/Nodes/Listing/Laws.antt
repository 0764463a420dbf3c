-- ===== src/Nodes/Listing/Laws.antt =====
-- What GetNodeList returns.
use board_old.Prelude.{◌≡◌, refl, ap, ◌∙◌, Bool, Option, none, some, String, List, [], map}
use board_old.Prelude.Go.{Slice, elems, append_each, elems-append_each, map-map}
use board_old.Prelude.Effect.{ok, return, after, caught, recovered, answered, or_panic}
use board_old.K8s.Api.Meta.{Quantities}
use board_old.K8s.Api.Node as Api
use board_old.K8s.Client.{NodeClient}
use board_old.K8s.Convert.Node.{from_k8s_node, from_k8s_node_list}
use board_old.K8s.Assist.Node as Nodes
use board_old.Nodes.Listing.{NodeListResult, get_node_list, listed, node_item}

abbrev pub nodes_of : {Q : Type 0} → Option (Api.NodeList Q) → List (Api.Node Q)
nodes_of none = []
nodes_of (some found) = elems found.items

module _ (ping : String → Option Bool) (Q : Quantities) (C : NodeClient Q.Quantity) where
  -- An error of the cluster gives a nil list.
  pub get_node_list_unlisted :
      (s : C.State) → C.list s "" ≡ none → get_node_list ping Q C s ≡ (ok none, s)
  unfolding get_node_list Nodes.list
  get_node_list_unlisted s h = rw h refl

  list_answered :
      (s : C.State) (answer : Option (Api.NodeList Q.Quantity))
      → recovered none (
          after
            (caught
              (after (answered answer, s) λ found. or_panic (from_k8s_node_list Q (some found))))
            (λ nodes. return (listed ping nodes)))
        ≡ (ok (listed ping (from_k8s_node_list Q answer)), s)
  unfolding from_k8s_node_list
  list_answered s none = refl
  list_answered s (some found) = refl

  listed-map :
      (answer : Option (Api.NodeList Q.Quantity))
      → elems (listed ping (from_k8s_node_list Q answer))
        ≡ map (λ k. node_item ping (from_k8s_node Q k)) (nodes_of answer)
  unfolding from_k8s_node_list
  listed-map none = refl
  listed-map (some found) =
      elems-append_each (node_item ping) none
        (elems (append_each (from_k8s_node Q) (some []) (elems found.items)))
      ∙ ap (map (node_item ping))
          (elems-append_each (from_k8s_node Q) (some []) (elems found.items))
      ∙ map-map (node_item ping) (from_k8s_node Q) (elems found.items)

  -- GetNodeList returns whatever the cluster and the pings answer, changes nothing, and has one entry
  -- for each node that the cluster lists, in order; none where the cluster's list is an error.
  pub get_node_list_returns :
      (s : C.State)
      → (nodes : Slice NodeListResult) × (get_node_list ping Q C s ≡ (ok nodes, s))
        × (elems nodes ≡ map (λ k. node_item ping (from_k8s_node Q k)) (nodes_of (C.list s "")))
  unfolding get_node_list Nodes.list
  get_node_list_returns s = (
    listed ping (from_k8s_node_list Q (C.list s "")),
    list_answered s (C.list s ""),
    listed-map (C.list s ""),
  )
