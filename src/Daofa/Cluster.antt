-- ===== src/Daofa/Cluster.antt =====
-- What a `CalculateHandle` (pkg/zaohua/daofa/replica_calculator.go) is made of: the clients and
-- library functions that it calls, which are no code of this repository, and its settings.
use sunwukong.Base.{String, ℕ, Bool, Option, List, Result}
use sunwukong.Kube.Time.{Time, Duration}
use sunwukong.Kube.Pods.{Pod, PodCondition}
use sunwukong.Kube.Autoscaling.{Selector, LabelSelector}
use sunwukong.Metrics.Api.{MetricsApi}
use sunwukong.Daofa.Groups.{GroupRules}

pub record Cluster : Type 0 where
  -- `client.Client.List` of the pods of a namespace that a selector picks
  pub list_pods : String → Selector → Result (List Pod)
  -- `metav1.LabelSelectorAsSelector`
  pub as_selector : Option LabelSelector → Result Selector
  -- `podutil.GetPodCondition` and `podutil.IsPodReady`
  pub get_pod_condition : Pod → String → Option PodCondition
  pub is_pod_ready : Pod → Bool
  pub metrics : MetricsApi
  -- the readings of the clock while the pods are grouped
  pub clock : ℕ → Time

pub record CalculateHandle (F : Type 0) : Type 0 where
  pub cluster : Cluster
  pub cpu_initialization_period : Duration
  pub initial_readiness_delay : Duration
  pub down_scale_stabilization_window : Duration
  pub scale_tolerance : F

abbrev pub rules_of : {F : Type 0} → CalculateHandle F → GroupRules
rules_of c = record {
  cpu_initialization_period = c.cpu_initialization_period;
  initial_readiness_delay = c.initial_readiness_delay;
  get_pod_condition = c.cluster.get_pod_condition;
}
