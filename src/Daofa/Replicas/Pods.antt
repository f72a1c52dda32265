-- ===== src/Daofa/Replicas/Pods.antt =====
-- `CalculateReplicasWithPodsMetricSourceType` and `calculatePlainMetricReplicas`.
use sunwukong.Base.{
  String, not, ◌&&◌, Option, none, some, length, no_pod_metrics, Result, ok, err, panic, ◌>>=◌,
  deref, if◌then◌else◌,
}
use sunwukong.Base.Int.{ℤ, pos}
use sunwukong.Float.{Float}
use sunwukong.Kube.Time.{Time, zero_time}
use sunwukong.Kube.Autoscaling.{Selector, MetricSpec}
use sunwukong.Metrics.Api.{PodMetricsInfo}
use sunwukong.Metrics.Client.{get_raw_metric}
use sunwukong.Metrics.Utilization.{metric_utilization_ratio}
use sunwukong.Daofa.Groups.{Groups, group_pods}
use sunwukong.Daofa.Cluster.{CalculateHandle, rules_of}
use sunwukong.Daofa.Replicas.Balance.{
  list_pods, is_empty, discard, is_tolerable, scaled, is_rebalanced, adjust, decide_replicas,
}

-- An error is dropped and leaves the value that the callee returns beside it.
abbrev pub or_default {ℓ} : {A : Type ℓ} → A → Result A → Result A
or_default a (ok x) = ok x
or_default a (err e) = ok a
or_default a (panic p) = panic p

-- A selector that failed to convert is nil.
abbrev pub or_nil : Result Selector → Result (Option Selector)
or_nil (ok s) = ok (some s)
or_nil (err e) = ok none
or_nil (panic p) = panic p

module _ {F : Type 0} (fl : Float F) (c : CalculateHandle F) where
  -- The part of `calculatePlainMetricReplicas` that recomputes the ratio.
  unfoldable pub recompute : Groups → PodMetricsInfo → F → ℤ → ℤ → Result ℤ
  recompute groups metrics usage target current = do
    let adjusted = adjust fl groups usage target metrics
    (new_usage, _) ← metric_utilization_ratio fl adjusted target
    elim (decide_replicas fl c.scale_tolerance usage current (length adjusted) new_usage) [
      | none ↦ ok current
      | some replicas ↦ ok replicas
    ]

  -- The replicas of `calculatePlainMetricReplicas`; its caller drops the utilization.
  unfoldable pub plain_metric_replicas : PodMetricsInfo → ℤ → ℤ → String → Selector → Result ℤ
  plain_metric_replicas metrics current target namespace selector = do
    pods ← list_pods c.cluster namespace selector
    let groups = group_pods (rules_of c) "" c.cluster.clock metrics pods
    let kept = discard groups metrics
    if is_empty kept then err no_pod_metrics else (do
      (usage, _) ← metric_utilization_ratio fl kept target
      if not (is_rebalanced fl groups usage)
            && is_empty groups.missing_pods
            && is_tolerable fl c.scale_tolerance usage
          then ok (scaled fl usage (pos groups.ready_pod_count))
          else recompute groups kept usage target current)

  -- Every error ends as 0 replicas with no error.
  unfoldable pub replicas_with_pods : String → Selector → MetricSpec → ℤ → Result (ℤ × Time)
  replicas_with_pods namespace selector metric current = do
    source ← deref metric.pods
    metric_selector ← or_nil (c.cluster.as_selector source.metric.selector)
    replicas ← or_default (pos 0) (do
      (metrics, timestamp) ←
          get_raw_metric c.cluster.metrics source.metric.name namespace selector metric_selector
      target ← deref source.target.average_value
      plain_metric_replicas metrics current target.milli_value namespace selector)
    ok (replicas, zero_time)
