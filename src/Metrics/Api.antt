-- ===== src/Metrics/Api.antt =====
-- The metrics API clients of k8s.io/metrics, which metrics/rest_metrics_client.go calls, and the
-- results of pkg/zaohua/daofa/metrics.
use sunwukong.Base.{String, Option, List, Result}
use sunwukong.Base.Int.{ℤ}
use sunwukong.Base.Dict.{Dict}
use sunwukong.Kube.Time.{Time, Duration}
use sunwukong.Kube.Pods.{PodMetrics, MetricValue, ExternalMetricValue}
use sunwukong.Kube.Autoscaling.{Selector}

pub record PodMetric : Type 0 where
  pub timestamp : Time
  pub window : Duration
  pub value : ℤ

abbrev pub PodMetricsInfo : Type 0
PodMetricsInfo = Dict PodMetric

-- What the API servers answer; a selector that failed to convert is handed on as nil.
pub record MetricsApi : Type 0 where
  -- `PodMetricses(namespace).List`
  pub pod_metricses : String → Selector → Result (List PodMetrics)
  -- `NamespacedMetrics(namespace).GetForObjects` of the kind Pod
  pub get_for_objects : String → Selector → String → Option Selector → Result (List MetricValue)
  -- `RootScopedMetrics().GetForObject` of a group and a kind, at a name
  pub root_get_for_object : String → String → String → String → Option Selector → Result MetricValue
  -- `NamespacedMetrics(namespace).GetForObject`
  pub get_for_object :
      String → String → String → String → String → Option Selector → Result MetricValue
  -- `NamespacedMetrics(namespace).List` of the external metrics
  pub list_external : String → String → Option Selector → Result (List ExternalMetricValue)
  -- the group of `schema.FromAPIVersionAndKind`
  pub group_of : String → String
