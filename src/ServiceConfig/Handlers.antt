-- ===== src/ServiceConfig/Handlers.antt =====
-- The handlers on drafts: how they go on or reply, and what they ask of the request and of the rest
-- of the program. ServeStatus and InternalError are those of controllers/commons/base.go.
use board_old.Prelude.{ℕ, String, Bool, true, false, Option, none, some}
use board_old.Prelude.Go.{Slice}
use board_old.Prelude.Int.{ℤ}
use board_old.Model.ServiceConfig.{Container, ConfigServiceStep}

pub data Reply : Type 0 where
  done : Reply
  status : ℕ → String → Reply
  aborted : ℕ → Reply

-- A stage of a handler goes on with a value, or has replied.
pub data Stage {ℓ} (A : Type ℓ) : Type ℓ where
  pass : A → Stage A
  stop : Reply → Stage A

infixl 5 ◌>>=◌ ◌>>◌
abbrev pub ◌>>=◌ {ℓ κ} : {A : Type ℓ} {B : Type κ} → Stage A → (A → Stage B) → Stage B
pass a >>= f = f a
stop r >>= f = stop r

abbrev pub ◌>>◌ {ℓ} : {B : Type ℓ} → Stage (Unit {0}) → Stage B → Stage B
m >> k = m >>= λ _. k

-- `if failed { ServeStatus(400, message); return }`
abbrev pub refuse_if : Bool → String → Stage (Unit {0})
refuse_if true message = stop (status 400 message)
refuse_if false message = pass tt

-- `if err != nil { InternalError(err); return }`
abbrev pub or_abort {ℓ} : {A : Type ℓ} → Option A → Stage A
or_abort none = stop (aborted 500)
or_abort (some a) = pass a

abbrev pub or_refuse {ℓ} : {A : Type ℓ} → Option A → String → Stage A
or_refuse none message = stop (status 400 message)
or_refuse (some a) message = pass a

-- What the handler reads of the request: parameters, and the body at the types that it is decoded
-- to. `none` is an error of the call.
pub record Request : Type 0 where
  pub get_string : String → String
  pub get_int : String → Option ℤ
  pub get_int_or : String → ℤ → Option ℤ
  pub is_readable : Bool
  pub container_body : Option (Slice Container)
  pub step_body : Option ConfigServiceStep

-- What the handler asks of the database, of the cluster and of Go's Unicode tables. Projects stand
-- for their names; `resolve_user_privilege_by_id` stops where it aborts the request.
pub record Backend : Type 0 where
  pub to_lower : String → String
  pub resolve_user_privilege_by_id : ℤ → Stage String
  pub get_project : ℤ → Option (Option String)
  pub service_exists : String → String → Option Bool
  pub node_or_node_group_exists : String → Option Bool
