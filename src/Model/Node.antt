-- ===== src/Model/Node.antt =====
-- common/model/k8scli.go: the nodes of the cluster.
use board_old.Prelude.{ℕ, Option, String, Bool}
use board_old.Prelude.Go.{Slice, GoMap}
use board_old.Model.Meta.{ObjectMeta}

-- Quantities by resource name, each as text.
abbrev pub ResourceList : Type 0
ResourceList = GoMap String

pub record Taint : Type 0 where
  pub key : String
  pub value : String
  pub effect : String
  pub time_added : Option ℕ

pub record NodeAddress : Type 0 where
  pub address_type : String
  pub address : String

pub record NodeCondition : Type 0 where
  pub condition_type : String
  pub status : String
  pub last_heartbeat_time : ℕ
  pub last_transition_time : ℕ
  pub reason : String
  pub message : String

pub record NodeStatus : Type 0 where
  pub capacity : ResourceList
  pub allocatable : ResourceList
  pub phase : String
  pub conditions : Slice NodeCondition
  pub addresses : Slice NodeAddress

-- The embedded `ObjectMeta` is the field `object_meta`.
pub record Node : Type 0 where
  pub object_meta : ObjectMeta
  pub node_ip : String
  pub unschedulable : Bool
  pub taints : Slice Taint
  pub status : NodeStatus

pub record NodeList : Type 0 where
  pub items : Slice Node
