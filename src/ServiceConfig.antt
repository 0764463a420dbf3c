-- ===== src/ServiceConfig.antt =====
-- apiserver/v1/controller/serviceconfig.go: the draft of a service that a user fills in phase by
-- phase. The drafts are kept in the memory cache, one for each user. A handler either stores a draft
-- or replies; an `InternalError` aborts the request, in the framework by a panic.
pub mod Handlers
pub mod Checks
pub mod Ports
pub mod Names
pub mod Inversion
pub mod Laws
pub mod Action
pub mod Tests
use board_old.ServiceConfig.Handlers.{
  Reply, done, status, aborted, Stage, pass, stop, ◌>>=◌, ◌>>◌, refuse_if, or_abort, or_refuse,
  Request, Backend,
}
use board_old.Prelude.{ℕ, ◌*◌, String, Bool, true, false, not, Option, none, some, List, []}
use board_old.Prelude.{if◌then◌else◌}
use board_old.Prelude.Go.{Slice, elems}
use board_old.Prelude.Int.{ℤ, pos, ltb_ℤ, eq_ℤ}
use board_old.Prelude.Text.{str_eq}
use board_old.Cache.{Cache}
use board_old.Model.ServiceConfig.{Container, ExternalService, Affinity, ConfigServiceStep}
use board_old.ServiceConfig.Checks.{
  has_invalid_port, validate_with_length_range, resources_in_order, check_port_map,
}

abbrev pub zero_step : ConfigServiceStep
zero_step = record {
  project_id = pos 0;
  project_name = "";
  service_id = pos 0;
  service_name = "";
  service_type = pos 0;
  public = pos 0;
  node_selector = "";
  instance_count = pos 0;
  cluster_ip = "";
  container_list = none;
  init_container_list = none;
  external_service_list = none;
  affinity_list = none;
  session_affinity_flag = pos 0;
  session_affinity_time = pos 0;
}

-- 900 seconds
abbrev pub expiry_time_span : ℕ
expiry_time_span = 900 * 1_000_000_000

abbrev pub service_type_stateful_set : ℤ
service_type_stateful_set = pos 5

-- The methods that write a draft.
pub select_project : ConfigServiceStep → ℤ → String → ConfigServiceStep
select_project s project_id project_name = record s {
  project_id = project_id;
  project_name = project_name;
}

pub config_container_list : ConfigServiceStep → Slice Container → ConfigServiceStep
config_container_list s containers = record s { container_list = containers }

pub config_init_container_list : ConfigServiceStep → Slice Container → ConfigServiceStep
config_init_container_list s containers = record s { init_container_list = containers }

pub config_external_service :
    ConfigServiceStep
    → String
    → ℤ
    → String
    → ℤ
    → ℤ
    → String
    → Slice ExternalService
    → ℤ
    → ℤ
    → ConfigServiceStep
config_external_service s name kind cluster_ip instances public node_selector externals flag time =
    record s {
      service_name = name;
      service_type = kind;
      instance_count = instances;
      public = public;
      cluster_ip = cluster_ip;
      node_selector = node_selector;
      external_service_list = externals;
      session_affinity_flag = flag;
      session_affinity_time = time;
    }

pub config_affinity : ConfigServiceStep → Slice Affinity → ConfigServiceStep
config_affinity s none = s
config_affinity s (some as_) = record s { affinity_list = some as_ }

-- The phase that selects the project.
pub select_project_phase : Backend → Request → ConfigServiceStep → Stage ConfigServiceStep
unfolding select_project
select_project_phase b q step = do
  project_id ← or_abort (q.get_int "project_id")
  name ← b.resolve_user_privilege_by_id project_id
  pass (select_project step project_id name)

-- The two phases that set a list of containers by a method `f`.
pub container_phase :
    (ConfigServiceStep → Slice Container → ConfigServiceStep)
    → Request
    → ConfigServiceStep
    → Stage ConfigServiceStep
container_phase f q step = do
  containers ← or_abort q.container_body
  refuse_if (not (resources_in_order (elems containers))) "ERR_INVALID_RESOURCE_REQUEST"
  let external = check_port_map (elems step.external_service_list) (elems containers)
  pass (f (record step { external_service_list = some external }) containers)

-- `drafted` is the draft that the cache holds for the user, if any.
pub check_service_duplicate_name : Backend → Option ConfigServiceStep → String → Stage Bool
check_service_duplicate_name b drafted name = do
  step ← or_refuse drafted "ERR_NOT_CREATE_SERVICE_CONFIG"
  found ← or_abort (b.get_project step.project_id)
  project ← or_refuse found "ERR_NOT_SET_PROJECT_IN_SERVICE_CONFIG"
  or_abort (b.service_exists name project)

-- The test of the node selector, which an empty one passes.
pub check_node_selector : Backend → String → Stage (Unit {0})
check_node_selector b name = if str_eq name "" then pass tt else do
  exists ← or_abort (b.node_or_node_group_exists name)
  refuse_if (not exists) "ERR_NODE_SELECTOR_NAME_NOT_FOUND"

abbrev pub name_message : String
name_message = "Service Name must be not empty and no more than 63 characters "

-- The cluster address of a service: none for a stateful set.
abbrev pub headless : ℤ → String → String
headless kind cluster_ip = if eq_ℤ kind service_type_stateful_set then "None" else cluster_ip

-- The phase that names the service and its external ports.
pub external_service_phase :
    Backend → Request → Option ConfigServiceStep → ConfigServiceStep → Stage ConfigServiceStep
unfolding check_service_duplicate_name check_node_selector config_affinity
external_service_phase b q drafted step = do
  let service_name = b.to_lower (q.get_string "service_name")
  refuse_if (not (validate_with_length_range service_name 1 63)) name_message
  duplicate ← check_service_duplicate_name b drafted service_name
  refuse_if duplicate "ERR_DUPLICATE_SERVICE_NAME"
  instances ← or_abort (q.get_int "instance")
  refuse_if (ltb_ℤ instances (pos 1)) "ERR_INVALID_SERVICE_INSTANCE"
  public ← or_abort (q.get_int "service_public")
  service_type ← or_abort (q.get_int "service_type")
  let cluster_ip = headless service_type (q.get_string "cluster_ip")
  flag ← or_abort (q.get_int_or "session_affinity_flag" (pos 0))
  time ← or_abort (q.get_int_or "session_affinity_time" (pos 0))
  let node_selector = b.to_lower (q.get_string "node_selector")
  check_node_selector b node_selector
  config ← or_abort q.step_body
  refuse_if (has_invalid_port (elems config.external_service_list)) "ERR_INVALID_SERVICE_NODEPORT"
  let named =
      config_external_service step service_name service_type cluster_ip instances public
        node_selector config.external_service_list flag time
  pass (config_affinity named config.affinity_list)

abbrev pub is_nil : List ExternalService → Bool
is_nil [] = true
is_nil _ = false

-- The checks on a whole draft, and the one field that they write.
pub check_entire_service_config : Backend → ConfigServiceStep → Stage ConfigServiceStep
check_entire_service_config b entire = do
  found ← or_abort (b.get_project entire.project_id)
  project ← or_refuse found "ERR_INVALID_PROJECT_ID"
  let service_name = b.to_lower entire.service_name
  refuse_if (str_eq service_name "") "ERR_EMPTY_SERVICE_NAME"
  duplicate ← or_abort (b.service_exists service_name project)
  refuse_if duplicate "ERR_DUPLICATE_SERVICE_NAME"
  refuse_if (ltb_ℤ entire.instance_count (pos 1)) "ERR_INVALID_SERVICE_INSTANCE"
  refuse_if (is_nil (elems entire.external_service_list)) "ERR_EMPTY_EXTERNAL_SERVICE_LIST"
  refuse_if (has_invalid_port (elems entire.external_service_list)) "ERR_INVALID_SERVICE_NODEPORT"
  pass (record entire { project_name = project })

pub entire_service_phase : Backend → Request → Stage ConfigServiceStep
unfolding check_entire_service_config
entire_service_phase b q = do entire ← or_abort q.step_body; check_entire_service_config b entire

-- The switch on the phase: the draft to store, or a reply.
pub next_step :
    Backend → Request → Option ConfigServiceStep → ConfigServiceStep → Stage ConfigServiceStep
next_step b q drafted step =
    let phase = q.get_string "phase" in
    if str_eq phase "SELECT_PROJECT"
    then select_project_phase b q step
    else if str_eq phase "CONFIG_CONTAINERS"
    then container_phase config_container_list q step
    else if str_eq phase "CONFIG_INIT_CONTAINERS"
    then container_phase config_init_container_list q step
    else if str_eq phase "EXTERNAL_SERVICE"
    then external_service_phase b q drafted step
    else if str_eq phase "ENTIRE_SERVICE"
    then entire_service_phase b q
    else stop (status 400 "ERR_INVALID_PHASE")

-- NewConfigServiceStep
abbrev pub or_zero : Option ConfigServiceStep → ConfigServiceStep
or_zero none = zero_step
or_zero (some step) = step

module _ (C : Cache ConfigServiceStep) where
  pub get_config_service_step : C.State → ℕ → String → Option ConfigServiceStep
  get_config_service_step s now key = C.get s now key

  pub set_config_service_step : C.State → ℕ → String → ConfigServiceStep → C.State
  set_config_service_step s now key step = C.put s now key step expiry_time_span

  -- `if IsExist(key) { return Delete(key) }; return nil`; the Boolean is false on an error.
  pub delete_config_service_step : C.State → ℕ → String → Bool × C.State
  delete_config_service_step s now key = elim (C.get s now key) [
    | none ↦ (true, s)
    | some step ↦ C.delete s key
  ]

  abbrev pub finish : C.State → ℕ → String → Stage ConfigServiceStep → Reply × C.State
  finish s now key (pass step) = (done, set_config_service_step s now key step)
  finish s now key (stop r) = (r, s)

  -- SetConfigServiceStepAction, for the user with the key
  pub set_config_service_step_action : Backend → C.State → ℕ → String → Request → Reply × C.State
  unfolding set_config_service_step get_config_service_step
  set_config_service_step_action b s now key q =
      let drafted = get_config_service_step s now key in
      let stored = finish s now key (next_step b q drafted (or_zero drafted)) in
      if q.is_readable then stored else (aborted 500, s)
