-- ===== src/Metrics/Client.antt =====
-- pkg/zaohua/daofa/metrics/rest_metrics_client.go.
use sunwukong.Base.{
  String, ◌&&◌, Option, none, some, List, [], ◌∷◌, str_eq, no_metrics_from_api,
  no_container_in_metrics, Result, ok, err, ◌>>=◌, if◌then◌else◌,
}
use sunwukong.Base.Int.{ℤ, pos}
use sunwukong.Base.Words.{◌+64◌}
use sunwukong.Base.Dict.{lookup, insert}
use sunwukong.Kube.Time.{Time, seconds}
use sunwukong.Kube.Pods.{ContainerMetrics, PodMetrics, MetricValue, ExternalMetricValue}
use sunwukong.Kube.Autoscaling.{Selector, ObjectReference}
use sunwukong.Metrics.Api.{PodMetric, PodMetricsInfo, MetricsApi}

-- `consts.MetricServerDefaultMetricWindow`, a minute.
abbrev pub default_metric_window : ℤ
default_metric_window = pos 60_000_000_000

abbrev pub metric_of : PodMetrics → ℤ → PodMetric
metric_of m value = record { timestamp = m.timestamp; window = m.window; value = value }

-- The first container of that name: the inner loop of `getContainerMetrics`, up to its `break`.
unfoldable pub find_container : String → List ContainerMetrics → Option ContainerMetrics
find_container name [] = none
find_container name (c ∷ cs) = if str_eq c.name name then some c else find_container name cs

unfoldable pub container_metrics_loop :
    String → String → List PodMetrics → PodMetricsInfo → Result PodMetricsInfo
container_metrics_loop resource name [] res = ok res
container_metrics_loop resource name (m ∷ ms) res = elim (find_container name m.containers) [
  | none ↦ err (no_container_in_metrics name)
  | some c ↦ elim (lookup resource c.usage) [
    | none ↦ container_metrics_loop resource name ms res
    | some val ↦
        container_metrics_loop resource name ms (insert m.name (metric_of m val.milli_value) res)
  ]
]

unfoldable pub get_container_metrics : List PodMetrics → String → String → Result PodMetricsInfo
unfolding container_metrics_loop
get_container_metrics raw resource name = container_metrics_loop resource name raw []

-- The sum over the containers; `none` once one of them lacks the resource.
unfoldable pub sum_usage : String → List ContainerMetrics → ℤ → Option ℤ
sum_usage resource [] sum = some sum
sum_usage resource (c ∷ cs) sum = elim (lookup resource c.usage) [
  | none ↦ none
  | some q ↦ sum_usage resource cs (sum +64 q.milli_value)
]

-- A pod with no container is missing.
unfoldable pub pod_usage : String → List ContainerMetrics → Option ℤ
unfolding sum_usage
pod_usage resource [] = none
pod_usage resource (c ∷ cs) = sum_usage resource (c ∷ cs) (pos 0)

unfoldable pub pod_metrics_loop : String → List PodMetrics → PodMetricsInfo → PodMetricsInfo
unfolding pod_usage
pod_metrics_loop resource [] res = res
pod_metrics_loop resource (m ∷ ms) res = elim (pod_usage resource m.containers) [
  | none ↦ pod_metrics_loop resource ms res
  | some sum ↦ pod_metrics_loop resource ms (insert m.name (metric_of m sum) res)
]

unfoldable pub get_pod_metrics : List PodMetrics → String → PodMetricsInfo
unfolding pod_metrics_loop
get_pod_metrics raw resource = pod_metrics_loop resource raw []

custom_metric : MetricValue → PodMetric
custom_metric m = record {
  timestamp = m.timestamp;
  window = elim m.window_seconds [ none ↦ default_metric_window | some s ↦ seconds s ];
  value = m.value.milli_value;
}

raw_metrics_loop : List MetricValue → PodMetricsInfo → PodMetricsInfo
raw_metrics_loop [] res = res
raw_metrics_loop (m ∷ ms) res = raw_metrics_loop ms (insert m.object_name (custom_metric m) res)

external_values : List ExternalMetricValue → List ℤ
external_values [] = []
external_values (m ∷ ms) = m.value.milli_value ∷ external_values ms

-- Every method gives the metrics and the timestamp of the first item.
module _ (api : MetricsApi) where
  -- `GetResouceMetric`
  unfoldable pub get_resource_metric :
      String → String → Selector → String → Result (PodMetricsInfo × Time)
  unfolding get_container_metrics get_pod_metrics
  get_resource_metric resource namespace selector container = do
    items ← api.pod_metricses namespace selector
    elim items [
      | [] ↦ err no_metrics_from_api
      | m ∷ ms ↦
          if str_eq container ""
          then ok (get_pod_metrics (m ∷ ms) resource, m.timestamp)
          else (do res ← get_container_metrics (m ∷ ms) resource container; ok (res, m.timestamp))
    ]

  -- `GetRawMetric`
  unfoldable pub get_raw_metric :
      String → String → Selector → Option Selector → Result (PodMetricsInfo × Time)
  unfolding raw_metrics_loop custom_metric
  get_raw_metric name namespace selector metric_selector = do
    items ← api.get_for_objects namespace selector name metric_selector
    elim items [
      | [] ↦ err no_metrics_from_api
      | m ∷ ms ↦ ok (raw_metrics_loop (m ∷ ms) [], m.timestamp)
    ]

  -- `GetObjectMetric`
  unfoldable pub get_object_metric :
      String → String → ObjectReference → Option Selector → Result (ℤ × Time)
  get_object_metric name namespace object_ref metric_selector = do
    let group = api.group_of object_ref.api_version
    m ←
        if str_eq object_ref.kind "Namespace" && str_eq group ""
        then api.root_get_for_object group object_ref.kind namespace name metric_selector
        else api.get_for_object namespace group object_ref.kind object_ref.name name metric_selector
    ok (m.value.milli_value, m.timestamp)

  -- `GetExternalMetric`
  unfoldable pub get_external_metric : String → String → Option Selector → Result (List ℤ × Time)
  unfolding external_values
  get_external_metric name namespace selector = do
    items ← api.list_external namespace name selector
    elim items [
      | [] ↦ err no_metrics_from_api
      | m ∷ ms ↦ ok (external_values (m ∷ ms), m.timestamp)
    ]
