-- ===== src/Daofa/Replicas/Object.antt =====
-- `CalculateReplicasWithObjectSourceType` and the functions that it calls.
use sunwukong.Base.{
  String, Bool, true, false, ◌&&◌, some, List, [], ◌∷◌, str_eq, unsupported, Result, ok, err, panic,
  ◌>>=◌, deref, if◌then◌else◌,
}
use sunwukong.Base.Int.{ℤ, pos, eqb_ℤ}
use sunwukong.Base.Words.{◌+32◌}
use sunwukong.Float.{Float}
use sunwukong.Kube.Time.{Time, zero_time}
use sunwukong.Kube.Pods.{Pod, PodPhase, running}
use sunwukong.Kube.Autoscaling.{Selector, MetricSpec, ObjectMetricSource}
use sunwukong.Metrics.Client.{get_object_metric}
use sunwukong.Daofa.Cluster.{Cluster, CalculateHandle}
use sunwukong.Daofa.Replicas.Balance.{list_pods, is_tolerable, scaled}

abbrev is_running : PodPhase → Bool
is_running running = true
is_running _ = false

count_ready : (Pod → Bool) → List Pod → ℤ → ℤ
count_ready is_ready [] count = count
count_ready is_ready (pod ∷ pods) count =
    count_ready is_ready pods
      (if is_running pod.phase && is_ready pod then count +32 pos 1 else count)

-- `getReadyPodsCount`
unfoldable pub ready_pods_count : Cluster → String → Selector → Result ℤ
unfolding list_pods count_ready
ready_pods_count cluster namespace selector = do
  pods ← list_pods cluster namespace selector
  ok (count_ready cluster.is_pod_ready pods (pos 0))

-- A call whose results are all dropped: only its panic remains.
abbrev pub discarded {ℓ} : {A : Type ℓ} → Result A → Result (Unit {0})
discarded (ok a) = ok tt
discarded (err e) = ok tt
discarded (panic p) = panic p

module _ {F : Type 0} (fl : Float F) (c : CalculateHandle F) where
  open fl use {of_int, div, mul, ceil, to_int32}

  -- `getUsageRatioReplicas`; its timestamp is the zero time on every path.
  unfoldable pub usage_ratio_replicas : ℤ → F → String → Selector → Result (ℤ × Time)
  unfolding ready_pods_count scaled
  usage_ratio_replicas current usage namespace selector =
      if eqb_ℤ current (pos 0)
      then ok (to_int32 (ceil usage), zero_time)
      else if is_tolerable fl c.scale_tolerance usage
      then ok (current, zero_time)
      else (do
        ready ← ready_pods_count c.cluster namespace selector
        ok (scaled fl usage ready, zero_time))

  -- `getReplicasWithObjectSourceType`: what `getUsageRatioReplicas` returns is dropped, and the
  -- result keeps its initial value 0.
  unfoldable pub object_replicas : String → ObjectMetricSource → Selector → ℤ → Result (ℤ × Time)
  object_replicas namespace source selector current = do
    metric_selector ← c.cluster.as_selector source.metric.selector
    (utilization, timestamp) ←
        get_object_metric c.cluster.metrics source.metric.name namespace source.described_object
          (some metric_selector)
    target ← deref source.target.value
    let usage = div (of_int utilization) (of_int target.milli_value)
    _ ← discarded (usage_ratio_replicas current usage namespace selector)
    ok (pos 0, timestamp)

  -- `getReplicasForPerPodWithObjectSourceType`; the test is `Abs(1.0-ratio) > tolerance`.
  unfoldable pub object_replicas_per_pod : String → ObjectMetricSource → ℤ → Result (ℤ × Time)
  object_replicas_per_pod namespace source current = do
    metric_selector ← c.cluster.as_selector source.metric.selector
    (utilization, timestamp) ←
        get_object_metric c.cluster.metrics source.metric.name namespace source.described_object
          (some metric_selector)
    target ← deref source.target.average_value
    let usage = div (of_int utilization) (mul (of_int target.milli_value) (of_int current))
    ok (
      if fl.lt c.scale_tolerance (fl.abs (fl.sub (of_int (pos 1)) usage))
          then to_int32 (ceil (div (of_int utilization) (of_int target.milli_value)))
          else current,
      timestamp,
    )

  unfoldable pub replicas_with_object : String → Selector → MetricSpec → ℤ → Result (ℤ × Time)
  replicas_with_object namespace selector metric current = do
    source ← deref metric.object
    if str_eq source.target.type "Value"
        then object_replicas namespace source selector current
        else if str_eq source.target.type "AverageValue"
        then object_replicas_per_pod namespace source current
        else if str_eq source.target.type "Utilization"
        then ok (current, zero_time)
        else err (unsupported source.target.type)
