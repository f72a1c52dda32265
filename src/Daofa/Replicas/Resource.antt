-- ===== src/Daofa/Replicas/Resource.antt =====
-- `CalculateReplicasWithResourceMetricSourceType` and
-- `CalculateReplicasWithContainerResourceMetricSourceType`.
use sunwukong.Base.{
  String, not, ◌&&◌, Option, none, some, length, no_pod_metrics, Result, ok, err, ◌>>=◌, deref,
  if◌then◌else◌,
}
use sunwukong.Base.Int.{ℤ, pos}
use sunwukong.Float.{Float}
use sunwukong.Kube.Time.{Time, zero_time}
use sunwukong.Kube.Pods.{Quantity}
use sunwukong.Kube.Autoscaling.{Selector, MetricSpec}
use sunwukong.Metrics.Api.{PodMetricsInfo}
use sunwukong.Metrics.Client.{get_resource_metric}
use sunwukong.Metrics.Utilization.{resource_utilization_ratio, metric_utilization_ratio}
use sunwukong.Daofa.Groups.{Groups, group_pods}
use sunwukong.Daofa.Requests.{calculate_pod_requests}
use sunwukong.Daofa.Cluster.{CalculateHandle, rules_of}
use sunwukong.Daofa.Replicas.Balance.{
  list_pods, is_empty, discard, is_tolerable, scaled, is_rebalanced, adjust, decide_replicas,
}

module _ {F : Type 0} (fl : Float F) (c : CalculateHandle F) where
  -- From the metrics of the ready pods to the replicas: the part after `GetResourceUtilizationRatio`.
  -- `kept_time` is the timestamp that the last two tests return with the current number.
  unfoldable pub rebalance : Groups → PodMetricsInfo → F → ℤ → ℤ → Time → Time → Result (ℤ × Time)
  rebalance groups metrics usage target current timestamp kept_time =
      if not (is_rebalanced fl groups usage) && is_empty groups.missing_pods
      then ok (
        if is_tolerable fl c.scale_tolerance usage
            then current
            else scaled fl usage (pos groups.ready_pod_count),
        timestamp,
      )
      else (do
        let adjusted = adjust fl groups usage target metrics
        (new_usage, _) ← metric_utilization_ratio fl adjusted target
        elim (decide_replicas fl c.scale_tolerance usage current (length adjusted) new_usage) [
          | none ↦ ok (current, kept_time)
          | some replicas ↦ ok (replicas, timestamp)
        ])

  -- From the metrics on: the two calculations differ in what they group, sum and stamp by.
  unfoldable pub calculate_from_metrics :
      String
      → Selector
      → Option Quantity
      → (group_by container resource : String) → ℤ
      → PodMetricsInfo
      → Time
      → Time
      → Result (ℤ × Time)
  calculate_from_metrics namespace selector average_value group_by container resource current
        metrics timestamp kept_time =
      do
        pods ← list_pods c.cluster namespace selector
        let groups = group_pods (rules_of c) group_by c.cluster.clock metrics pods
        let kept = discard groups metrics
        requests ← calculate_pod_requests pods container resource
        target ← deref average_value
        (usage, _, _) ← resource_utilization_ratio fl kept requests target.milli_value
        rebalance groups kept usage target.milli_value current timestamp kept_time

  -- The name "container" is a literal of the source.
  unfoldable pub replicas_with_resource : String → Selector → MetricSpec → ℤ → Result (ℤ × Time)
  replicas_with_resource namespace selector metric current = do
    source ← deref metric.resource
    (metrics, timestamp) ←
        get_resource_metric c.cluster.metrics source.name namespace selector "container"
    if is_empty metrics
        then err no_pod_metrics
        else calculate_from_metrics namespace selector source.target.average_value source.name ""
            source.name current metrics timestamp timestamp

  unfoldable pub replicas_with_container_resource :
      String → MetricSpec → Selector → ℤ → Result (ℤ × Time)
  replicas_with_container_resource namespace metric selector current = do
    source ← deref metric.container_resource
    (metrics, timestamp) ←
        get_resource_metric c.cluster.metrics source.name namespace selector source.container
    if is_empty metrics
        then err no_pod_metrics
        else calculate_from_metrics namespace selector source.target.average_value ""
            source.container "" current metrics timestamp zero_time
