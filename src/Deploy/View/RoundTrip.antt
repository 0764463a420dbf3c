-- ===== src/Deploy/View/RoundTrip.antt =====
-- A container of a draft, made for the cluster and read back.
use board_old.Prelude.{Option, String, none, some, ◌≡◌, refl, ◌∙◌, ap, sym}
use board_old.Prelude.{List, [], ◌∷◌, map, inl, inr, if◌then◌else◌, Bool-cases}
use board_old.Prelude.Go.{elems, nil_if_empty, append_each, append_each-none, map-map}
use board_old.Prelude.Int.{ℤ, to_int32}
use board_old.Prelude.Text.{str_eq, str_eq_iff}
use board_old.Prelude.Panic.{index}
use board_old.Model.ServiceConfig.{Container, EnvStructCont, VolumeMountStruct}
use board_old.Model.Pod.{ContainerPort, Volume, ResourceRequirements, SecurityContext}
use board_old.Deploy.Containers.{
  env_var, env_vars, container_port, k8s_container, shell_command, shell_args, volume_mounts,
}
use board_old.Deploy.View.{command_of, view_value, view_env, view_mounts, quantity, view_container}
use board_old.Deploy.View.Image.{Lacks, view_image-image_text}

-- A variable as it can be read back: with a configuration map it has no value, without one no key.
abbrev pub normal_env : EnvStructCont → EnvStructCont
normal_env e =
    if str_eq e.env_config_map_name ""
    then record e { env_config_map_name = ""; env_config_map_key = "" }
    else record e { env_value = "" }

-- The variables that have a name.
abbrev pub named_env : List EnvStructCont → List EnvStructCont
named_env [] = []
named_env (e ∷ rest) =
    if str_eq e.env_name "" then named_env rest else normal_env e ∷ named_env rest

view_env_var :
    (e : EnvStructCont) → view_value (env_var e) (env_var e).value_from ≡ some (normal_env e)
unfolding view_value env_var
view_env_var e = elim (Bool-cases (str_eq e.env_config_map_name "")) [
  | inl h ↦ simp h refl
  | inr h ↦ simp h refl
]

env_name_kept : (e : EnvStructCont) → (env_var e).name ≡ e.env_name
unfolding env_var
env_name_kept e = elim (Bool-cases (str_eq e.env_config_map_name "")) [
  | inl h ↦ simp h refl
  | inr h ↦ simp h refl
]

-- Variables are read back without a panic, those with a name, each in normal form.
pub view_env-env_vars : (es : List EnvStructCont) → view_env (env_vars es) ≡ some (named_env es)
unfolding view_env env_vars
view_env-env_vars [] = refl
view_env-env_vars (e ∷ es) = elim (Bool-cases (str_eq e.env_name "")) [
  | inl h ↦ simp h (view_env-env_vars es)
  | inr h ↦ simp h (rw (env_name_kept e, h, view_env_var e, view_env-env_vars es) refl)
]

shell_line :
    (line : String) → command_of (elems (shell_command line)) (elems (shell_args line)) ≡ some line
unfolding command_of index
shell_line line = elim (Bool-cases (str_eq line "")) [
  | inl h ↦ simp h (ap some (sym ((str_eq_iff line "").0 h)))
  | inr h ↦ simp h refl
]

pub elems-nil_if_empty : {A : Type 0} (xs : List A) → elems (nil_if_empty xs) ≡ xs
elems-nil_if_empty [] = refl
elems-nil_if_empty (x ∷ xs) = refl

ports_back :
    (ps : List ℤ)
    → append_each
        (λ (p : ContainerPort). p.container_port)
        none
        (elems (append_each container_port none ps))
      ≡ nil_if_empty (map to_int32 ps)
unfolding container_port
ports_back ps =
    ap (λ s. append_each (λ (p : ContainerPort). p.container_port) none (elems s))
      (append_each-none container_port ps)
    ∙ ap (append_each (λ (p : ContainerPort). p.container_port) none)
        (elems-nil_if_empty (map container_port ps))
    ∙ append_each-none (λ (p : ContainerPort). p.container_port) (map container_port ps)
    ∙ ap nil_if_empty (map-map (λ (p : ContainerPort). p.container_port) container_port ps)

-- A container as it can be read back, with its mounts.
abbrev pub normal : Container → List VolumeMountStruct → Container
normal c mounts = record c {
  volume_mounts = nil_if_empty mounts;
  image = record c.image { project_name = "" };
  env = nil_if_empty (named_env (elems c.env));
  container_port = nil_if_empty (map to_int32 (elems c.container_port));
}

-- The container with requests and limits as they are shown.
abbrev pub with_quantities : ResourceRequirements → Container → Container
with_quantities r c = record c {
  cpu_request = quantity "cpu" r.requests;
  mem_request = quantity "memory" r.requests;
  cpu_limit = quantity "cpu" r.limits;
  mem_limit = quantity "memory" r.limits;
  gpu_limit = quantity "nvidia.com/gpu" r.limits;
}

-- With a registry without a slash in its address and a tag without a colon, a container whose
-- mounts are read back is read back: name, directory, command and image as they were, its named
-- variables in normal form, its ports in 32 bits, and the requests and limits that it has by then.
pub view_container-k8s_container :
    (join : String → String → String) (uri : String) (c : Container) (volumes : List Volume)
    {mounts : List VolumeMountStruct} (r : ResourceRequirements) (context : Option SecurityContext)
    → Lacks "/" uri
    → Lacks ":" c.image.image_tag
    → view_mounts volumes 0 (volume_mounts join (elems c.volume_mounts)) ≡ some mounts
    → view_container volumes
        (record (k8s_container join uri c) { resources = r; security_context = context })
      ≡ some (with_quantities r (normal c mounts))
unfolding view_container k8s_container
view_container-k8s_container join uri c volumes {mounts} r context u tag m =
    rw
      (
        shell_line c.command,
        elems-nil_if_empty (volume_mounts join (elems c.volume_mounts)),
        m,
        elems-nil_if_empty (env_vars (elems c.env)),
        view_env-env_vars (elems c.env),
        view_image-image_text uri c.image u tag,
      )
      (λ i. some (record (with_quantities r (normal c mounts)) {
        container_port = ports_back (elems c.container_port) i;
      }))
