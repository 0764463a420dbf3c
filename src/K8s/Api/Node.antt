-- ===== src/K8s/Api/Node.antt =====
-- k8s.io/api/core/v1: nodes. `Q` is the type of quantities.
use board_old.Prelude.{Option, String, Bool}
use board_old.Prelude.Go.{Slice, GoMap}
use board_old.K8s.Api.Meta.{TypeMeta, Time, ObjectMeta}

pub record Taint : Type 0 where
  pub key : String
  pub value : String
  pub effect : String
  pub time_added : Option Time

pub record NodeAddress : Type 0 where
  pub address_type : String
  pub address : String

pub record NodeCondition : Type 0 where
  pub condition_type : String
  pub status : String
  pub last_heartbeat_time : Time
  pub last_transition_time : Time
  pub reason : String
  pub message : String

pub record NodeStatus (Q : Type 0) : Type 0 where
  pub capacity : GoMap Q
  pub allocatable : GoMap Q
  pub phase : String
  pub conditions : Slice NodeCondition
  pub addresses : Slice NodeAddress

pub record NodeSpec : Type 0 where
  pub pod_cidr : String
  pub unschedulable : Bool
  pub taints : Slice Taint

pub record Node (Q : Type 0) : Type 0 where
  pub type_meta : TypeMeta
  pub object_meta : ObjectMeta
  pub spec : NodeSpec
  pub status : NodeStatus Q

pub record NodeList (Q : Type 0) : Type 0 where
  pub items : Slice (Node Q)
