-- ===== src/ServiceConfig/Action.antt =====
-- SetConfigServiceStepAction on the store of drafts.
use mathlib.Core.Path.{subst}
use board_old.Prelude.{ℕ, ◌≡◌, ◌≢◌, refl, sym, inl, inr, false, Option, some}
use board_old.Prelude.{String, Bool-cases}
use board_old.Prelude.Go.{elems}
use board_old.Prelude.Text.{str_eq}
use board_old.Cache.{Cache, IsLawful}
use board_old.Model.ServiceConfig.{ConfigServiceStep}
use board_old.ServiceConfig.Inversion.{abort-pass, either-pass}
use board_old.ServiceConfig.Laws.{
  IsValid, select_project_phase-pass, container_phase-pass, external_service_phase-IsNamed,
  check_entire_service_config-IsEntire,
}
use board_old.ServiceConfig.Ports.{check_port_map-AllPorts}
use board_old.ServiceConfig.Handlers.{done, Stage, pass, stop, Request, Backend}
use board_old.ServiceConfig.{
  select_project_phase, container_phase, entire_service_phase, next_step, finish,
  config_container_list, config_init_container_list, set_config_service_step_action,
  set_config_service_step,
}

module _ (b : Backend) (q : Request) (step : ConfigServiceStep) {next : ConfigServiceStep} where
  select_project-IsValid : select_project_phase b q step ≡ pass next → IsValid step → IsValid next
  select_project-IsValid h v =
      let (id, name, _, e) = select_project_phase-pass b q step h in subst IsValid (sym e) v

  containers-IsValid :
      container_phase config_container_list q step ≡ pass next → IsValid step → IsValid next
  unfolding config_container_list
  containers-IsValid h v =
      let (cs, _, e) = container_phase-pass b q step config_container_list h in
      subst IsValid (sym e) (check_port_map-AllPorts _ (elems cs) v)

  init_containers-IsValid :
      container_phase config_init_container_list q step ≡ pass next → IsValid step → IsValid next
  unfolding config_init_container_list
  init_containers-IsValid h v =
      let (cs, _, e) = container_phase-pass b q step config_init_container_list h in
      subst IsValid (sym e) (check_port_map-AllPorts _ (elems cs) v)

  entire-IsValid : entire_service_phase b q ≡ pass next → IsValid next
  unfolding entire_service_phase
  entire-IsValid h =
      let (entire, _, k) = abort-pass q.step_body _ h in
      (check_entire_service_config-IsEntire b entire k).ports

  -- From a draft with valid ports every phase that passes leads to one with valid ports.
  pub next_step-IsValid :
      (drafted : Option ConfigServiceStep)
      → next_step b q drafted step ≡ pass next
      → IsValid step
      → IsValid next
  unfolding next_step
  next_step-IsValid drafted h v =
      let phase = q.get_string "phase" in
      either-pass (str_eq phase "SELECT_PROJECT") (λ k. select_project-IsValid k v)
        (either-pass (str_eq phase "CONFIG_CONTAINERS") (λ k. containers-IsValid k v)
          (either-pass (str_eq phase "CONFIG_INIT_CONTAINERS") (λ k. init_containers-IsValid k v)
            (either-pass (str_eq phase "EXTERNAL_SERVICE")
              (λ k. (external_service_phase-IsNamed b q drafted step k).ports)
              (either-pass (str_eq phase "ENTIRE_SERVICE") (λ k. entire-IsValid k) (λ k. cc)))))
        h

module _ (C : Cache ConfigServiceStep) where
  finish_refused :
      (s : C.State) (now : ℕ) (key : String) (m : Stage ConfigServiceStep)
      → (finish C s now key m).0 ≢ done
      → (finish C s now key m).1 ≡ s
  finish_refused s now key (pass x) h = absurd (h refl)
  finish_refused s now key (stop r) h = refl

  -- A request that is refused or aborted leaves every draft as it was.
  pub action_refused :
      (b : Backend) (s : C.State) (now : ℕ) (key : String) (q : Request)
      → (set_config_service_step_action C b s now key q).0 ≢ done
      → (set_config_service_step_action C b s now key q).1 ≡ s
  unfolding set_config_service_step_action
  action_refused b s now key q = elim (Bool-cases q.is_readable) [
    | inl e ↦ rw e (finish_refused s now key _)
    | inr e ↦ rw e (λ h. refl)
  ]

  -- The drafts that can be read all have valid ports.
  abbrev pub AllValid : C.State → Type 0
  AllValid s =
      (later : ℕ) (user : String) (step : ConfigServiceStep)
      → C.get s later user ≡ some step
      → IsValid step

  module _ (L : IsLawful C) where
    finish_ne :
        (s : C.State) (now later : ℕ) (key user : String) (m : Stage ConfigServiceStep)
        → str_eq key user ≡ false
        → C.get (finish C s now key m).1 later user ≡ C.get s later user
    unfolding set_config_service_step
    finish_ne s now later key user (pass x) h = L.get-put_ne s now later key user x _ h
    finish_ne s now later key user (stop r) h = refl

    -- In a lawful cache a request of one user does not change the draft of another.
    pub action_ne :
        (b : Backend) (s : C.State) (now later : ℕ) (key user : String) (q : Request)
        → str_eq key user ≡ false
        → C.get (set_config_service_step_action C b s now key q).1 later user ≡ C.get s later user
    unfolding set_config_service_step_action
    action_ne b s now later key user q h = elim (Bool-cases q.is_readable) [
      | inl e ↦ rw e (finish_ne s now later key user _ h)
      | inr e ↦ rw e refl
    ]
