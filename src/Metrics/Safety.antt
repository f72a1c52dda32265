-- ===== src/Metrics/Safety.antt =====
-- Panics in metrics/rest_metrics_client.go.
use sunwukong.Base.{
  String, inl, inr, Option, List, [], ◌∷◌, arith, NeverPanics, >>=-NeverPanics, Option-cases,
}
use sunwukong.Base.Dict.{lookup, insert}
use sunwukong.Kube.Pods.{PodMetrics}
use sunwukong.Kube.Autoscaling.{Selector, ObjectReference}
use sunwukong.Metrics.Api.{PodMetricsInfo, MetricsApi}
use sunwukong.Metrics.Client.{
  metric_of, find_container, container_metrics_loop, get_container_metrics, get_resource_metric,
  get_object_metric,
}

-- The requests to the metrics APIs do not panic.
pub record IsSafeApi (api : MetricsApi) : Type 0 where
  pub pod_metricses :
      (namespace : String) (selector : Selector)
      → NeverPanics (api.pod_metricses namespace selector)
  pub root_get_for_object :
      (group kind name metric : String) (selector : Option Selector)
      → NeverPanics (api.root_get_for_object group kind name metric selector)
  pub get_for_object :
      (namespace group kind name metric : String) (selector : Option Selector)
      → NeverPanics (api.get_for_object namespace group kind name metric selector)

container_metrics_loop-NeverPanics :
    (resource name : String) (ms : List PodMetrics) (res : PodMetricsInfo)
    → NeverPanics (container_metrics_loop resource name ms res)
unfolding container_metrics_loop
container_metrics_loop-NeverPanics resource name [] res p = λ e. cc
container_metrics_loop-NeverPanics resource name (m ∷ ms) res p =
    elim (Option-cases (find_container name m.containers)) [
      | inl f ↦ λ e. ground arith
      | inr (c, f) ↦ elim (Option-cases (lookup resource c.usage)) [
        | inl l ↦
            let rest = container_metrics_loop-NeverPanics resource name ms res p in
            λ e. ground (arith, rest)
        | inr (val, l) ↦
            let rest =
              container_metrics_loop-NeverPanics resource name ms
                (insert m.name (metric_of m val.milli_value) res) p in
            λ e. ground (arith, rest)
      ]
    ]

module _ (api : MetricsApi) (safe : IsSafeApi api) where
  pub get_resource_metric-NeverPanics :
      (resource namespace : String) (selector : Selector) (container : String)
      → NeverPanics (get_resource_metric api resource namespace selector container)
  unfolding get_resource_metric get_container_metrics
  get_resource_metric-NeverPanics resource namespace selector container =
      >>=-NeverPanics (api.pod_metricses namespace selector) _
        (safe.pod_metricses namespace selector)
        λ items _ p.
          let containers = container_metrics_loop-NeverPanics resource container items [] p in
          λ e. grind (arith, containers)

  pub get_object_metric-NeverPanics :
      (name namespace : String) (ref : ObjectReference) (selector : Option Selector)
      → NeverPanics (get_object_metric api name namespace ref selector)
  unfolding get_object_metric
  get_object_metric-NeverPanics name namespace ref selector =
      let group = api.group_of ref.api_version in
      λ p e. ground (
        arith,
        safe.root_get_for_object group ref.kind namespace name selector p,
        safe.get_for_object namespace group ref.kind ref.name name selector p,
      )
