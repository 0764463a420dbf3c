-- ===== src/K8s/Assist/Node.antt =====
-- nodeassist.go: the client for nodes.
use board_old.Prelude.{String, some, if◌then◌else◌}
use board_old.Prelude.Effect.{Act, ◌>>=◌, return, reads, calls, or_panic, ok, err}
use board_old.Model.Node.{Node, NodeList}
use board_old.K8s.Api.Meta.{Quantities}
use board_old.K8s.Client.{NodeClient}
use board_old.K8s.Convert.Node.{to_k8s_node, update_k8s_node, from_k8s_node, from_k8s_node_list}

-- A nil pointer that is read panics.
module _ (Q : Quantities) (C : NodeClient Q.Quantity) where
  -- `selector` is the first of the arguments, and empty where there is none.
  unfoldable pub list : String → Act C.State NodeList
  list selector = do
    found ← reads (λ s. C.list s selector)
    or_panic (from_k8s_node_list Q (some found))

  unfoldable pub get : String → Act C.State Node
  get name = do found ← reads (λ s. C.get s name); return (from_k8s_node Q found)

  unfoldable pub create : Node → Act C.State Node
  create node = do
    sent ← or_panic (to_k8s_node Q (some node))
    made ← calls (λ s. C.create s sent)
    return (from_k8s_node Q made)

  unfoldable pub update : Node → Act C.State Node
  update node = do
    old ← reads (λ s. C.get s node.object_meta.name)
    sent ← or_panic (update_k8s_node Q (some old) (some node))
    made ← calls (λ s. C.update s sent)
    return (from_k8s_node Q made)

  unfoldable pub update_status : Node → Act C.State Node
  update_status node = do
    old ← reads (λ s. C.get s node.object_meta.name)
    sent ← or_panic (update_k8s_node Q (some old) (some node))
    made ← calls (λ s. C.update_status s sent)
    return (from_k8s_node Q made)

  unfoldable pub delete : String → Act C.State (Unit {0})
  delete name s = let (done, s') = C.delete s name in (if done then ok tt else err, s')
