-- ===== src/K8s/Convert/Container.antt =====
-- convert.go: containers. A quantity that cannot be parsed panics: `none`.
use board_old.Prelude.{Option, none, some, String, List, [], Bool}
use board_old.Prelude.Go.{GoMap, elems, append_each, lookup, insert}
use board_old.Prelude.Panic.{◌>>=◌}
use board_old.Model.Pod.{
  ContainerPort, ConfigMapKeySelector, EnvVarSource, EnvVar, ResourceRequirements, SecurityContext,
  K8sContainer,
}
use board_old.K8s.Api.Meta.{Quantities}
use board_old.K8s.Api.Pod as Api
use board_old.K8s.Convert.Volume.{to_k8s_volume_mount, from_k8s_volume_mount}

unfoldable pub to_k8s_container_port : ContainerPort → Api.ContainerPort
to_k8s_container_port p = record {
  name = p.name;
  host_port = p.host_port;
  container_port = p.container_port;
  protocol = p.protocol;
  host_ip = p.host_ip;
}

unfoldable pub from_k8s_container_port : Api.ContainerPort → ContainerPort
from_k8s_container_port p = record {
  name = p.name;
  host_port = p.host_port;
  container_port = p.container_port;
  protocol = p.protocol;
  host_ip = p.host_ip;
}

unfoldable pub to_k8s_config_map_key_selector :
    Option ConfigMapKeySelector → Option Api.ConfigMapKeySelector
to_k8s_config_map_key_selector none = none
to_k8s_config_map_key_selector (some cmks) = some (record {
  local_object_reference = record { name = cmks.local_object_reference.name };
  key = cmks.key;
  optional = cmks.optional;
})

abbrev pub to_source : Option EnvVarSource → Option Api.EnvVarSource
unfolding to_k8s_config_map_key_selector
to_source none = none
to_source (some source) =
    some (record { config_map_key_ref = to_k8s_config_map_key_selector source.config_map_key_ref })

unfoldable pub to_k8s_env_var : EnvVar → Api.EnvVar
to_k8s_env_var env = record {
  name = env.name;
  value = env.value;
  value_from = to_source env.value_from;
}

abbrev pub from_key_ref : Option Api.ConfigMapKeySelector → Option EnvVarSource
from_key_ref none = none
from_key_ref (some cmks) = some (record {
  config_map_key_ref = some (record {
    local_object_reference = record { name = cmks.local_object_reference.name };
    key = cmks.key;
    optional = cmks.optional;
  });
})

-- A source without a key of a configuration map becomes nil.
abbrev pub from_source : Option Api.EnvVarSource → Option EnvVarSource
from_source none = none
from_source (some source) = from_key_ref source.config_map_key_ref

unfoldable pub from_k8s_env_var : Api.EnvVar → EnvVar
from_k8s_env_var env = record {
  name = env.name;
  value = env.value;
  value_from = from_source env.value_from;
}

abbrev pub privileged_of : Option Api.SecurityContext → Option Bool
privileged_of none = none
privileged_of (some context) = context.privileged

unfoldable pub from_k8s_security_context : Option Api.SecurityContext → Option SecurityContext
from_k8s_security_context context = some (record { privileged = privileged_of context })

module _ (Q : Quantities) where
  -- `if v, ok := src[key]; ok { dst[key] = resource.MustParse(string(v)) }`
  abbrev pub put_parsed :
      String → Option String → List (String × Q.Quantity) → Option (List (String × Q.Quantity))
  put_parsed key none dst = some dst
  put_parsed key (some v) dst = do q ← Q.must_parse v; some (insert key q dst)

  -- The requests, and then the limits.
  unfoldable pub parse_resources :
      ResourceRequirements → Option (Api.ResourceRequirements Q.Quantity)
  unfolding lookup insert
  parse_resources r = do
    cpu ← put_parsed "cpu" (lookup "cpu" (elems r.requests)) []
    requests ← put_parsed "memory" (lookup "memory" (elems r.requests)) cpu
    cpu' ← put_parsed "cpu" (lookup "cpu" (elems r.limits)) []
    memory ← put_parsed "memory" (lookup "memory" (elems r.limits)) cpu'
    limits ← put_parsed "nvidia.com/gpu" (lookup "nvidia.com/gpu" (elems r.limits)) memory
    some (record { limits = some limits; requests = some requests })

  -- The security context is left out.
  unfoldable pub to_k8s_container : K8sContainer → Option (Api.Container Q.Quantity)
  unfolding parse_resources to_k8s_container_port to_k8s_env_var to_k8s_volume_mount
  to_k8s_container c = do
    resources ← parse_resources c.resources
    some (record {
      name = c.name;
      image = c.image;
      command = c.command;
      args = c.args;
      working_dir = c.working_dir;
      ports = append_each to_k8s_container_port none (elems c.ports);
      env = append_each to_k8s_env_var none (elems c.env);
      resources = resources;
      volume_mounts = append_each to_k8s_volume_mount none (elems c.volume_mounts);
      security_context = none;
    })

  abbrev pub put_text : String → Option Q.Quantity → List (String × String) → List (String × String)
  put_text key none dst = dst
  put_text key (some v) dst = insert key (Q.to_string v) dst

  unfoldable pub resources_text : Api.ResourceRequirements Q.Quantity → ResourceRequirements
  unfolding lookup insert
  resources_text r =
      let of = λ (key : String) (m : GoMap Q.Quantity). put_text key (lookup key (elems m)) in
      record {
        limits = some (of "nvidia.com/gpu" r.limits (of "memory" r.limits (of "cpu" r.limits [])));
        requests = some (of "memory" r.requests (of "cpu" r.requests []));
      }

  unfoldable pub from_k8s_container : Api.Container Q.Quantity → K8sContainer
  unfolding resources_text from_k8s_container_port from_k8s_env_var from_k8s_volume_mount
      from_k8s_security_context
  from_k8s_container c = record {
    name = c.name;
    image = c.image;
    command = c.command;
    args = c.args;
    working_dir = c.working_dir;
    ports = append_each from_k8s_container_port none (elems c.ports);
    env = append_each from_k8s_env_var none (elems c.env);
    resources = resources_text c.resources;
    volume_mounts = append_each from_k8s_volume_mount none (elems c.volume_mounts);
    security_context = from_k8s_security_context c.security_context;
  }
