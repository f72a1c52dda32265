-- ===== src/Daofa/Replicas/External.antt =====
-- `CalculateReplicasWithExternalMetricSourceType` and the functions that it calls.
use mathlib.Core.List.{foldl}
use sunwukong.Base.{
  String, some, List, str_eq, unsupported, Result, ok, err, ◌>>=◌, deref, if◌then◌else◌,
}
use sunwukong.Base.Int.{ℤ, pos}
use sunwukong.Base.Words.{◌+64◌}
use sunwukong.Float.{Float}
use sunwukong.Kube.Time.{Time, zero_time}
use sunwukong.Kube.Autoscaling.{Selector, MetricSpec}
use sunwukong.Metrics.Client.{get_external_metric}
use sunwukong.Daofa.Cluster.{CalculateHandle}
use sunwukong.Daofa.Replicas.Object.{usage_ratio_replicas}

abbrev pub sum_all : List ℤ → ℤ
sum_all = foldl ◌+64◌ (pos 0)

module _ {F : Type 0} (fl : Float F) (c : CalculateHandle F) where
  open fl use {of_int, div, mul, ceil, to_int32}

  -- `getReplicasWithExternalMetricSourceType`
  unfoldable pub external_replicas : String → MetricSpec → Selector → ℤ → Result (ℤ × Time)
  unfolding usage_ratio_replicas
  external_replicas namespace metric selector current = do
    source ← deref metric.external
    metric_selector ← c.cluster.as_selector source.metric.selector
    (metrics, timestamp) ←
        get_external_metric c.cluster.metrics source.metric.name namespace (some metric_selector)
    target ← deref source.target.value
    let usage = div (of_int (sum_all metrics)) (of_int target.milli_value)
    usage_ratio_replicas fl c current usage namespace selector

  -- `getReplicasForPerPodWithExternalMetricSourceType`; the test is `Abs(1.0-ratio) > 0`. The
  -- utilization that it computes last is never read.
  unfoldable pub external_replicas_per_pod : String → MetricSpec → ℤ → Result (ℤ × Time)
  external_replicas_per_pod namespace metric current = do
    source ← deref metric.external
    metric_selector ← c.cluster.as_selector source.metric.selector
    (metrics, timestamp) ←
        get_external_metric c.cluster.metrics source.metric.name namespace (some metric_selector)
    target ← deref source.target.average_value
    let utilization = sum_all metrics
    let usage = div (of_int utilization) (mul (of_int target.milli_value) (of_int current))
    ok (
      if fl.lt (of_int (pos 0)) (fl.abs (fl.sub (of_int (pos 1)) usage))
          then to_int32 (ceil (div (of_int utilization) (of_int target.milli_value)))
          else current,
      timestamp,
    )

  -- The kind of target is read from the object source.
  unfoldable pub replicas_with_external : String → MetricSpec → Selector → ℤ → Result (ℤ × Time)
  unfolding external_replicas external_replicas_per_pod
  replicas_with_external namespace metric selector current = do
    object ← deref metric.object
    if str_eq object.target.type "Value"
        then external_replicas namespace metric selector current
        else if str_eq object.target.type "AverageValue"
        then external_replicas_per_pod namespace metric current
        else if str_eq object.target.type "Utilization"
        then ok (current, zero_time)
        else err (unsupported object.target.type)
