-- ===== src/K8s/Client.antt =====
-- k8s.io/client-go: the calls of a cluster's interface to nodes and pods, with their documented behaviour.
-- The package is not the repository's code.
pub mod Memory
use board_old.Prelude.{String, Bool, true, false, Option, none, some, ◌≡◌}
use board_old.Prelude.Go.{elems, lookup}
use board_old.Prelude.Text.{str_eq}
use board_old.K8s.Api.Node as Api
use board_old.K8s.Api.Workload.{PodList, ListOptions}

-- `none`, and `false` for a deletion, is an error. Nodes are listed by a label selector. `Q` is the
-- type of quantities.
pub record NodeClient (Q : Type 0) : Type 1 where
  pub State : Type 0
  pub list : State → String → Option (Api.NodeList Q)
  pub get : State → String → Option (Api.Node Q)
  pub create : State → Api.Node Q → Option (Api.Node Q) × State
  pub update : State → Api.Node Q → Option (Api.Node Q) × State
  pub update_status : State → Api.Node Q → Option (Api.Node Q) × State
  pub delete : State → String → Bool × State

-- A node is found under its name; an update is read back with the labels that it had, under its
-- name, and leaves the other nodes.
pub record IsLawful {Q : Type 0} (C : NodeClient Q) : Type 0 where
  pub get-name :
      (s : C.State) (name : String) (n : Api.Node Q)
      → C.get s name ≡ some n
      → n.object_meta.name ≡ name
  pub get-update_self :
      (s : C.State) (n n' : Api.Node Q)
      → (C.update s n).0 ≡ some n'
      → (C.get (C.update s n).1 n.object_meta.name ≡ some n')
        × ((key : String)
            → lookup key (elems n'.object_meta.labels) ≡ lookup key (elems n.object_meta.labels))
  pub get-update_ne :
      (s : C.State) (n : Api.Node Q) (name : String)
      → str_eq n.object_meta.name name ≡ false
      → C.get (C.update s n).1 name ≡ C.get s name

-- The calls to the pods of the same cluster, by namespace, of which the empty one stands for all.
pub record PodClient (Q State : Type 0) : Type 0 where
  pub list : State → String → ListOptions → Option (PodList Q)
  pub delete : State → String → String → Bool × State
