-- ===== src/K8s/Convert/Deployment.antt =====
-- convert.go: deployments and replica sets. A nil pointer is `none`; of the conversions to the
-- cluster's types the outer `none` is a panic.
pub mod RoundTrip
use board_old.Prelude.{Option, none, some, String, List, []}
use board_old.Prelude.Go.{Slice, GoMap, elems, append_each}
use board_old.Prelude.Int.{ℤ, pos}
use board_old.Prelude.Panic.{◌>>=◌}
use board_old.Model.Deployment.{PodTemplateSpec, DeploymentSpec, Deployment, LabelSelector}
use board_old.Model.Workload.{
  DeploymentList, ReplicaSetCondition, ReplicaSetSpec, ReplicaSet, ReplicaSetList,
}
use board_old.K8s.Api.Meta.{Quantities}
use board_old.K8s.Api.Workload as Api
use board_old.K8s.Convert.Meta.{to_k8s_object_meta, from_k8s_object_meta}
use board_old.K8s.Convert.Pod.{to_k8s_pod_spec, from_k8s_pod_spec}

unfoldable pub from_k8s_selector : Option Api.LabelSelector → GoMap String
from_k8s_selector none = none
from_k8s_selector (some selector) = selector.match_labels

abbrev pub or_zero : Option ℤ → ℤ
or_zero none = pos 0
or_zero (some n) = n

-- `&metav1.LabelSelector{MatchLabels: ...}`, for a selector that may be nil
abbrev pub to_labels_only : Option LabelSelector → Option Api.LabelSelector
to_labels_only none = none
to_labels_only (some s) = some (record { match_labels = s.match_labels; match_expressions = none })

abbrev pub from_labels_only : Option Api.LabelSelector → Option LabelSelector
from_labels_only none = none
from_labels_only (some s) =
    some (record { match_labels = s.match_labels; match_expressions = none })

unfoldable pub to_replica_set_condition : ReplicaSetCondition → Api.ReplicaSetCondition
to_replica_set_condition c = record {
  condition_type = c.condition_type;
  status = c.status;
  last_transition_time = record { time = c.last_transition_time };
  reason = c.reason;
  message = c.message;
}

unfoldable pub from_replica_set_condition : Api.ReplicaSetCondition → ReplicaSetCondition
from_replica_set_condition c = record {
  condition_type = c.condition_type;
  status = c.status;
  last_transition_time = c.last_transition_time.time;
  reason = c.reason;
  message = c.message;
}

module _ (Q : Quantities) where
  unfoldable pub to_k8s_pod_template_spec :
      PodTemplateSpec → Option (Api.PodTemplateSpec Q.Quantity)
  to_k8s_pod_template_spec template = do
    spec ← to_k8s_pod_spec Q template.spec
    some (record { object_meta = to_k8s_object_meta template.object_meta; spec = spec })

  unfoldable pub from_k8s_pod_template_spec : Api.PodTemplateSpec Q.Quantity → PodTemplateSpec
  from_k8s_pod_template_spec template = record {
    object_meta = from_k8s_object_meta template.object_meta;
    spec = from_k8s_pod_spec Q template.spec;
  }

  unfoldable pub to_k8s_deployment : Option Deployment → Option (Option (Api.Deployment Q.Quantity))
  unfolding to_k8s_pod_template_spec
  to_k8s_deployment none = some none
  to_k8s_deployment (some deployment) = do
    templ ← to_k8s_pod_template_spec deployment.spec.template
    some (
        some (record {
          type_meta = record { kind = "Deployment"; api_version = "apps/v1" };
          object_meta = to_k8s_object_meta deployment.object_meta;
          spec = record {
            replicas = some deployment.spec.replicas;
            selector =
                some (record { match_labels = deployment.spec.selector; match_expressions = none });
            template = templ;
            paused = deployment.spec.paused;
          };
          status = record {
            replicas = deployment.status.replicas;
            updated_replicas = deployment.status.updated_replicas;
            available_replicas = deployment.status.available_replicas;
            unavailable_replicas = deployment.status.unavailable_replicas;
          };
        }))

  unfoldable pub from_k8s_deployment_spec : Api.DeploymentSpec Q.Quantity → DeploymentSpec
  unfolding from_k8s_selector from_k8s_pod_template_spec
  from_k8s_deployment_spec spec = record {
    replicas = or_zero spec.replicas;
    selector = from_k8s_selector spec.selector;
    template = from_k8s_pod_template_spec spec.template;
    paused = spec.paused;
  }

  unfoldable pub from_k8s_deployment : Api.Deployment Q.Quantity → Deployment
  unfolding from_k8s_deployment_spec
  from_k8s_deployment deployment = record {
    object_meta = from_k8s_object_meta deployment.object_meta;
    spec = from_k8s_deployment_spec deployment.spec;
    status = record {
      replicas = deployment.status.replicas;
      updated_replicas = deployment.status.updated_replicas;
      available_replicas = deployment.status.available_replicas;
      unavailable_replicas = deployment.status.unavailable_replicas;
    };
  }

  unfoldable pub from_k8s_deployment_list :
      Option (Api.DeploymentList Q.Quantity) → Option DeploymentList
  unfolding from_k8s_deployment
  from_k8s_deployment_list none = none
  from_k8s_deployment_list (some list) =
      some (record { items = append_each from_k8s_deployment (some []) (elems list.items) })

  unfoldable pub to_k8s_replica_set_spec : ReplicaSetSpec → Option (Api.ReplicaSetSpec Q.Quantity)
  unfolding to_k8s_pod_template_spec
  to_k8s_replica_set_spec spec = do
    template ← to_k8s_pod_template_spec spec.template
    some (record {
      replicas = spec.replicas;
      min_ready_seconds = spec.min_ready_seconds;
      selector = to_labels_only spec.selector;
      template = template;
    })

  unfoldable pub to_k8s_replica_set :
      Option ReplicaSet → Option (Option (Api.ReplicaSet Q.Quantity))
  unfolding to_k8s_replica_set_spec to_replica_set_condition
  to_k8s_replica_set none = some none
  to_k8s_replica_set (some rs) = do
    spec ← to_k8s_replica_set_spec rs.spec
    some (
        some (record {
          type_meta = record { kind = "ReplicaSet"; api_version = "apps/v1" };
          object_meta = to_k8s_object_meta rs.object_meta;
          spec = spec;
          status = record {
            replicas = rs.status.replicas;
            fully_labeled_replicas = rs.status.fully_labeled_replicas;
            ready_replicas = rs.status.ready_replicas;
            available_replicas = rs.status.available_replicas;
            observed_generation = rs.status.observed_generation;
            conditions =
                append_each to_replica_set_condition (some []) (elems rs.status.conditions);
          };
        }))

  unfoldable pub from_k8s_replic_set_spec : Api.ReplicaSetSpec Q.Quantity → ReplicaSetSpec
  unfolding from_k8s_pod_template_spec
  from_k8s_replic_set_spec spec = record {
    replicas = spec.replicas;
    min_ready_seconds = spec.min_ready_seconds;
    selector = from_labels_only spec.selector;
    template = from_k8s_pod_template_spec spec.template;
  }

  unfoldable pub from_k8s_replica_set : Api.ReplicaSet Q.Quantity → ReplicaSet
  unfolding from_k8s_replic_set_spec from_replica_set_condition
  from_k8s_replica_set rs = record {
    object_meta = from_k8s_object_meta rs.object_meta;
    spec = from_k8s_replic_set_spec rs.spec;
    status = record {
      replicas = rs.status.replicas;
      fully_labeled_replicas = rs.status.fully_labeled_replicas;
      ready_replicas = rs.status.ready_replicas;
      available_replicas = rs.status.available_replicas;
      observed_generation = rs.status.observed_generation;
      conditions = append_each from_replica_set_condition (some []) (elems rs.status.conditions);
    };
  }

  unfoldable pub from_k8s_replica_set_list :
      Option (Api.ReplicaSetList Q.Quantity) → Option ReplicaSetList
  unfolding from_k8s_replica_set
  from_k8s_replica_set_list none = none
  from_k8s_replica_set_list (some list) =
      some (record { items = append_each from_k8s_replica_set (some []) (elems list.items) })
