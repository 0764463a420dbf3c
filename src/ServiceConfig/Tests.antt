-- ===== src/ServiceConfig/Tests.antt =====
-- The service drafts: a project with one service draft, and the phases on it.
use board_old.ServiceConfig.Checks.{has_invalid_port}
use board_old.Prelude.Decimal.{atoi}
use board_old.ServiceConfig.Checks.{validate_with_length_range}
use board_old.Prelude.Go.{lookup}
use board_old.Prelude.Go.{delete}
use board_old.Prelude.Go.{insert}
use board_old.Prelude.{◌≡◌, refl, true, false, none, some, ◌↔◌}
use board_old.Prelude.{String, List, [], ◌∷◌, if◌then◌else◌}
use board_old.Prelude.Int.{ℤ, pos}
use board_old.Prelude.Text.{str_eq}
use board_old.Cache.{Cache, IsLawful}
use board_old.Cache.Memory.{memory, memory-IsLawful}
use board_old.Model.ServiceConfig.{Container, ExternalService, ConfigServiceStep}
use board_old.ServiceConfig.Handlers.{status, pass, Request, Backend}
use board_old.ServiceConfig.{
  zero_step, container_phase, check_entire_service_config, set_config_service_step_action,
  delete_config_service_step, next_step, entire_service_phase,
}
use board_old.ServiceConfig.Checks.{resources_in_order, check_port_map}
use board_old.ServiceConfig.Laws.{check_entire_service_config_skips_containers}
use board_old.ServiceConfig.Ports.{In, KeptBySome, In-check_port_map}

abbrev backend : Backend
backend = record {
  to_lower = λ s. s;
  resolve_user_privilege_by_id = λ id. pass "library";
  get_project = λ id. some (some "library");
  service_exists = λ name project. some false;
  node_or_node_group_exists = λ name. some true;
}

abbrev web_at : String → String → Container
web_at request limit = record {
  name = "web";
  working_dir = "";
  volume_mounts = none;
  image = record { image_name = "library/nginx"; image_tag = "1.11"; project_name = "library" };
  env = none;
  container_port = some (pos 80 ∷ []);
  command = "";
  cpu_request = request;
  mem_request = "";
  cpu_limit = limit;
  mem_limit = "";
  gpu_limit = "";
}

abbrev web : Container
web = web_at "100m" "200m"

abbrev greedy : Container
greedy = web_at "300m" "200m"

abbrev exposed_at : ℤ → ℤ → ExternalService
exposed_at port node_port = record {
  container_name = "web";
  node_config = record { target_port = port; node_port = node_port; port = port };
  load_balancer_config = record { external_access = "" };
}

abbrev draft : ConfigServiceStep
draft = record zero_step {
  project_id = pos 1;
  service_name = "web";
  instance_count = pos 1;
  container_list = some (web ∷ []);
  external_service_list = some (exposed_at (pos 80) (pos 30080) ∷ []);
}

abbrev asks : String → ConfigServiceStep → List Container → Request
asks phase step containers = record {
  get_string =
      λ key. if str_eq key "phase" then phase else if str_eq key "service_name" then "web" else "";
  get_int = λ key. some (pos 1);
  get_int_or = λ key default. some default;
  is_readable = true;
  container_body = some (some containers);
  step_body = some step;
}

abbrev Store : Cache ConfigServiceStep
Store = memory ConfigServiceStep

abbrev lawful : IsLawful Store
lawful = memory-IsLawful ConfigServiceStep

abbrev entire : Request
entire = asks "ENTIRE_SERVICE" draft []

abbrev stored : Store.State
stored = (set_config_service_step_action Store backend [] 0 "ann" entire).1

abbrev kept_draft : ConfigServiceStep
kept_draft = record draft { project_name = "library" }

kept_draft_is_stored : Store.get stored 5 "ann" ≡ some kept_draft
unfolding set_config_service_step_action next_step entire_service_phase container_phase lookup
    has_invalid_port insert
kept_draft_is_stored = refl

greedy_is_refused :
    (set_config_service_step_action Store backend stored 1 "ann"
      (asks "CONFIG_CONTAINERS" draft (greedy ∷ []))).0
    ≡ status 400 "ERR_INVALID_RESOURCE_REQUEST"
unfolding set_config_service_step_action next_step entire_service_phase container_phase
    resources_in_order atoi
greedy_is_refused = refl

draft_expires : Store.get stored 900_000_000_001 "ann" ≡ none
unfolding set_config_service_step_action next_step entire_service_phase container_phase lookup
    has_invalid_port insert
draft_expires = refl

deleted : delete_config_service_step Store stored 1 "ann" ≡ (true, [])
unfolding delete_config_service_step set_config_service_step_action next_step entire_service_phase
    lookup has_invalid_port insert delete
deleted = refl

greedy_request : Request
greedy_request = asks "CONFIG_CONTAINERS" draft (greedy ∷ [])

check_entire_service_config_skips_containers_example :
    check_entire_service_config backend (record draft { container_list = some (greedy ∷ []) })
    ≡ pass (record kept_draft { container_list = some (greedy ∷ []) })
unfolding check_entire_service_config has_invalid_port
check_entire_service_config_skips_containers_example =
    check_entire_service_config_skips_containers backend draft (some (greedy ∷ [])) refl

In-check_port_map_example :
    In (exposed_at (pos 80) (pos 30080)) (
      check_port_map
        (exposed_at (pos 80) (pos 30080) ∷ exposed_at (pos 81) (pos 30081) ∷ [])
        (web ∷ []))
    ↔ KeptBySome
        (exposed_at (pos 80) (pos 30080))
        (exposed_at (pos 80) (pos 30080) ∷ exposed_at (pos 81) (pos 30081) ∷ [])
        (web ∷ [])
In-check_port_map_example =
    In-check_port_map (exposed_at (pos 80) (pos 30080))
      (exposed_at (pos 80) (pos 30080) ∷ exposed_at (pos 81) (pos 30081) ∷ []) (web ∷ [])

-- The exposed port is lost behind one that the container does not have.
port_behind_is_lost :
    check_port_map
      (exposed_at (pos 81) (pos 30081) ∷ exposed_at (pos 80) (pos 30080) ∷ [])
      (web ∷ [])
    ≡ []
unfolding check_port_map
port_behind_is_lost = refl

-- The blanks at the ends of a name are not counted.
blanks_pass : validate_with_length_range "web      " 1 3 ≡ true
unfolding validate_with_length_range
blanks_pass = refl
