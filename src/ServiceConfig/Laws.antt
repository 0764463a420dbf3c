-- ===== src/ServiceConfig/Laws.antt =====
-- What the actions on drafts store and refuse.
use board_old.Prelude.{◌≡◌, refl, sym, ap, ◌∙◌, Bool, true, false, Option, none, some, not}
use board_old.Prelude.{String, arith}
use board_old.Prelude.Go.{elems, Slice}
use board_old.Prelude.Int.{ℤ, pos, ◌≤ℤ◌, ltb_ℤ}
use board_old.Prelude.Text.{str_eq}
use mathlib.Core.Path.{subst}
use board_old.Model.ServiceConfig.{Affinity, Container, ExternalService, ConfigServiceStep}
use board_old.ServiceConfig.Checks.{
  has_invalid_port, validate_with_length_range, resources_in_order, check_port_map,
}
use board_old.ServiceConfig.Names.{IsName, validate_with_length_range-IsName}
use board_old.ServiceConfig.Ports.{AllPorts, has_invalid_port-AllPorts}
use board_old.ServiceConfig.Inversion.{
  bind-pass, abort-pass, or_refuse-pass, refuse-pass, pass-injective, or_abort-eq,
}
use board_old.ServiceConfig.Handlers.{pass, Request, Backend}
use board_old.ServiceConfig.{
  select_project_phase, container_phase, external_service_phase, headless, config_external_service,
  select_project, config_affinity, check_entire_service_config, is_nil,
  check_service_duplicate_name, check_node_selector,
}

-- Every node port of the draft is absent or in the range.
abbrev pub IsValid : ConfigServiceStep → Type 0
IsValid step = AllPorts (elems step.external_service_list)

pub not-false : (t : Bool) → not t ≡ false → t ≡ true
not-false true h = refl
not-false false h = cc

module _ (b : Backend) (q : Request) (step : ConfigServiceStep) where
  -- Selecting a project changes the project of the draft and nothing else.
  pub select_project_phase-pass :
      {next : ConfigServiceStep}
      → select_project_phase b q step ≡ pass next
      → (id : ℤ) × (name : String) × (b.resolve_user_privilege_by_id id ≡ pass name)
        × (next ≡ record step { project_id = id; project_name = name })
  unfolding select_project_phase select_project
  select_project_phase-pass h =
      let (id, _, k) = abort-pass (q.get_int "project_id") _ h in
      let (name, e, k') = bind-pass (b.resolve_user_privilege_by_id id) _ k in
      (id, name, e, sym (pass-injective k'))

  -- A phase that sets containers passes only if every container's requests are at most its limits
  -- where both are given, and keeps of the external services those that the containers expose.
  pub container_phase-pass :
      (f : ConfigServiceStep → Slice Container → ConfigServiceStep) {next : ConfigServiceStep}
      → container_phase f q step ≡ pass next
      → (containers : Slice Container) × (resources_in_order (elems containers) ≡ true)
        × (next
            ≡ f
                (record step {
                  external_service_list =
                      some (check_port_map (elems step.external_service_list) (elems containers));
                })
                containers)
  unfolding container_phase
  container_phase-pass f h =
      let (containers, _, k) = abort-pass q.container_body _ h in
      let (t, k') = refuse-pass (not (resources_in_order (elems containers))) _ _ k in
      (containers, not-false _ t, sym (pass-injective k'))

-- No service of the name is in the project of the user's draft.
abbrev pub IsUnusedName : Backend → Option ConfigServiceStep → String → Type 0
IsUnusedName b drafted name =
    (d : ConfigServiceStep) × (project : String) × (drafted ≡ some d)
    × (b.get_project d.project_id ≡ some (some project))
    × (b.service_exists name project ≡ some false)

check_service_duplicate_name-pass :
    (b : Backend) (drafted : Option ConfigServiceStep) (name : String)
    → check_service_duplicate_name b drafted name ≡ pass false
    → IsUnusedName b drafted name
unfolding check_service_duplicate_name
check_service_duplicate_name-pass b drafted name h =
    let (d, e, k) = or_refuse-pass drafted _ _ h in
    let (found, e', k') = abort-pass (b.get_project d.project_id) _ k in
    let (project, e'', k'') = or_refuse-pass found _ _ k' in
    (d, project, e, e' ∙ ap some e'', or_abort-eq (b.service_exists name project) k'')

-- What a draft has after the phase that names the service.
pub record IsNamed (b : Backend) (q : Request) (drafted : Option ConfigServiceStep)
    (step next : ConfigServiceStep) : Type 0 where
  pub name : next.service_name ≡ b.to_lower (q.get_string "service_name")
  pub name_length : IsName next.service_name 63
  pub unused : IsUnusedName b drafted next.service_name
  pub instances : pos 1 ≤ℤ next.instance_count
  pub ports : AllPorts (elems next.external_service_list)
  pub address : next.cluster_ip ≡ headless next.service_type (q.get_string "cluster_ip")
  pub same_project : next.project_id ≡ step.project_id
  pub same_containers : next.container_list ≡ step.container_list
  pub same_init_containers : next.init_container_list ≡ step.init_container_list

-- The writes of the phase give what the checks have found.
named :
    (b : Backend) (q : Request) (drafted : Option ConfigServiceStep) (step : ConfigServiceStep)
    (n kind public flag time : ℤ) (selector : String) (externals : Slice ExternalService)
    (affinity : Slice Affinity)
    → let name = b.to_lower (q.get_string "service_name") in
      IsName name 63
      → IsUnusedName b drafted name
      → pos 1 ≤ℤ n
      → AllPorts (elems externals)
      → IsNamed b q drafted step (
          config_affinity
            (config_external_service step name kind
              (headless kind (q.get_string "cluster_ip"))
              n
              public
              selector
              externals
              flag
              time)
            affinity)
unfolding config_affinity config_external_service
named b q drafted step n kind public flag time selector externals none l u i p = record {
  name = refl;
  name_length = l;
  unused = u;
  instances = i;
  ports = p;
  address = refl;
  same_project = refl;
  same_containers = refl;
  same_init_containers = refl;
}
named b q drafted step n kind public flag time selector externals (some as_) l u i p = record {
  name = refl;
  name_length = l;
  unused = u;
  instances = i;
  ports = p;
  address = refl;
  same_project = refl;
  same_containers = refl;
  same_init_containers = refl;
}

not_less : (n : ℤ) → ltb_ℤ n (pos 1) ≡ false → pos 1 ≤ℤ n
not_less n h = ground arith

pub external_service_phase-IsNamed :
    (b : Backend) (q : Request) (drafted : Option ConfigServiceStep) (step : ConfigServiceStep)
    {next : ConfigServiceStep}
    → external_service_phase b q drafted step ≡ pass next
    → IsNamed b q drafted step next
unfolding external_service_phase
external_service_phase-IsNamed b q drafted step {next} h =
    let name = b.to_lower (q.get_string "service_name") in
    let (len_ok, h₁) = refuse-pass (not (validate_with_length_range name 1 63)) _ _ h in
    let (dup, e₂, h₂) = bind-pass (check_service_duplicate_name b drafted name) _ h₁ in
    let (fresh, h₃) = refuse-pass dup _ _ h₂ in
    let (n, _, h₄) = abort-pass (q.get_int "instance") _ h₃ in
    let (n_ok, h₅) = refuse-pass (ltb_ℤ n (pos 1)) _ _ h₄ in
    let (public, _, h₆) = abort-pass (q.get_int "service_public") _ h₅ in
    let (kind, _, h₇) = abort-pass (q.get_int "service_type") _ h₆ in
    let (flag, _, h₈) = abort-pass (q.get_int_or "session_affinity_flag" (pos 0)) _ h₇ in
    let (time, _, h₉) = abort-pass (q.get_int_or "session_affinity_time" (pos 0)) _ h₈ in
    let (_, _, hₐ) =
      bind-pass (check_node_selector b (b.to_lower (q.get_string "node_selector"))) _ h₉ in
    let (config, _, hᵦ) = abort-pass q.step_body _ hₐ in
    let (ports_ok, hᵧ) =
      refuse-pass (has_invalid_port (elems config.external_service_list)) _ _ hᵦ in
    subst (IsNamed b q drafted step) (pass-injective hᵧ) (
      named b q drafted step n kind public flag time (b.to_lower (q.get_string "node_selector"))
        config.external_service_list config.affinity_list
        (validate_with_length_range-IsName name 63 (not-false _ len_ok))
        (check_service_duplicate_name-pass b drafted name (e₂ ∙ ap pass fresh)) (not_less n n_ok)
        (has_invalid_port-AllPorts _ ports_ok))

-- What a draft has that was sent as a whole.
pub record IsEntire (b : Backend) (next : ConfigServiceStep) : Type 0 where
  pub name : str_eq (b.to_lower next.service_name) "" ≡ false
  pub project : b.get_project next.project_id ≡ some (some next.project_name)
  pub unused : b.service_exists (b.to_lower next.service_name) next.project_name ≡ some false
  pub instances : pos 1 ≤ℤ next.instance_count
  pub exposed : is_nil (elems next.external_service_list) ≡ false
  pub ports : AllPorts (elems next.external_service_list)

pub check_entire_service_config-IsEntire :
    (b : Backend) (entire : ConfigServiceStep) {next : ConfigServiceStep}
    → check_entire_service_config b entire ≡ pass next
    → IsEntire b next
unfolding check_entire_service_config
check_entire_service_config-IsEntire b entire h =
    let (found, e, h₁) = abort-pass (b.get_project entire.project_id) _ h in
    let (project, e', h₂) = or_refuse-pass found _ _ h₁ in
    let name = b.to_lower entire.service_name in
    let (named', h₃) = refuse-pass (str_eq name "") _ _ h₂ in
    let (duplicate, e₃, h₄) = abort-pass (b.service_exists name project) _ h₃ in
    let (fresh, h₅) = refuse-pass duplicate _ _ h₄ in
    let (n_ok, h₆) = refuse-pass (ltb_ℤ entire.instance_count (pos 1)) _ _ h₅ in
    let (some_ports, h₇) = refuse-pass (is_nil (elems entire.external_service_list)) _ _ h₆ in
    let (ports, h₈) = refuse-pass (has_invalid_port (elems entire.external_service_list)) _ _ h₇ in
    subst (IsEntire b) (pass-injective h₈) (record {
      name = named';
      project = e ∙ ap some e';
      unused = e₃ ∙ ap some fresh;
      instances = not_less entire.instance_count n_ok;
      exposed = some_ports;
      ports = has_invalid_port-AllPorts _ ports;
    })

-- The checks on a whole draft do not look at its containers: with any others in their place it
-- passes too, so that requests above their limits are not refused here.
pub check_entire_service_config_skips_containers :
    (b : Backend) (entire : ConfigServiceStep) (containers : Slice Container)
    {next : ConfigServiceStep}
    → check_entire_service_config b entire ≡ pass next
    → check_entire_service_config b (record entire { container_list = containers })
      ≡ pass (record next { container_list = containers })
unfolding check_entire_service_config
check_entire_service_config_skips_containers b entire containers {next} h =
    let (found, e, h₁) = abort-pass (b.get_project entire.project_id) _ h in
    let (project, e', h₂) = or_refuse-pass found _ _ h₁ in
    let name = b.to_lower entire.service_name in
    let (named', h₃) = refuse-pass (str_eq name "") _ _ h₂ in
    let (duplicate, e₃, h₄) = abort-pass (b.service_exists name project) _ h₃ in
    let (fresh, h₅) = refuse-pass duplicate _ _ h₄ in
    let (n_ok, h₆) = refuse-pass (ltb_ℤ entire.instance_count (pos 1)) _ _ h₅ in
    let (some_ports, h₇) = refuse-pass (is_nil (elems entire.external_service_list)) _ _ h₆ in
    let (ports, h₈) = refuse-pass (has_invalid_port (elems entire.external_service_list)) _ _ h₇ in
    rw (e ∙ ap some e', named', e₃ ∙ ap some fresh, n_ok, some_ports, ports)
      (ap (λ (s : ConfigServiceStep). pass (record s { container_list = containers }))
        (pass-injective h₈))
