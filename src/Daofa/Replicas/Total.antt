-- ===== src/Daofa/Replicas/Total.antt =====
-- Metrics for which the calculations of pkg/zaohua/daofa/replica_calculator.go do not panic.
use sunwukong.Base.{
  String, no_pod_metrics, ◌≡◌, inl, inr, Option, some, arith, str_eq, eq_iff, NeverPanics,
  >>=-NeverPanics, err, if◌then◌else◌, Bool-cases,
}
use sunwukong.Base.Int.{ℤ}
use sunwukong.Float.{Float}
use sunwukong.Kube.Time.{Time, zero_time}
use sunwukong.Kube.Pods.{Quantity}
use sunwukong.Kube.Autoscaling.{
  Selector, MetricSpec, ObjectMetricSource, ResourceMetricSource, ContainerResourceMetricSource,
  LabelSelector,
}
use sunwukong.Metrics.Api.{PodMetricsInfo}
use sunwukong.Metrics.Safety.{
  IsSafeApi, get_resource_metric-NeverPanics, get_object_metric-NeverPanics,
}
use sunwukong.Metrics.Client.{get_resource_metric, get_object_metric}
use sunwukong.Daofa.Cluster.{CalculateHandle}
use sunwukong.Daofa.Replicas.Balance.{is_empty}
use sunwukong.Daofa.Replicas.Resource.{
  calculate_from_metrics, replicas_with_resource, replicas_with_container_resource,
}
use sunwukong.Daofa.Replicas.Object.{
  ready_pods_count, usage_ratio_replicas, object_replicas, object_replicas_per_pod,
  replicas_with_object,
}
use sunwukong.Daofa.Replicas.Safety.{list_pods-NeverPanics, calculate_from_metrics-NeverPanics}

-- The requests that the calculations send do not panic.
pub record IsSafe {F : Type 0} (c : CalculateHandle F) : Type 0 where
  pub list_pods :
      (namespace : String) (selector : Selector)
      → NeverPanics (c.cluster.list_pods namespace selector)
  pub as_selector : (labels : Option LabelSelector) → NeverPanics (c.cluster.as_selector labels)
  pub metrics : IsSafeApi c.cluster.metrics

-- The quantity that the type of the target reads.
abbrev pub HasTarget : ObjectMetricSource → Type 0
HasTarget source =
    (source.target.type ≡ "Value" → (q : Quantity) × (source.target.value ≡ some q))
    × (source.target.type ≡ "AverageValue"
        → (q : Quantity) × (source.target.average_value ≡ some q))

module _ {F : Type 0} (c : CalculateHandle F) (safe : IsSafe c) where
  module _ (fl : Float F) where
    after_metrics-NeverPanics :
        (namespace : String) (selector : Selector) (q : Quantity)
        (group_by container resource : String) (current : ℤ) (metrics : PodMetricsInfo)
        (timestamp kept_time : Time)
        → NeverPanics (
            if is_empty metrics
            then err no_pod_metrics
            else calculate_from_metrics fl c namespace selector
                (some q)
                group_by
                container
                resource
                current
                metrics
                timestamp
                kept_time)
    after_metrics-NeverPanics namespace selector q group_by container resource current metrics
          timestamp kept_time p =
        let run =
          calculate_from_metrics-NeverPanics fl c namespace selector q group_by container resource
            current metrics timestamp kept_time (safe.list_pods namespace selector) p in
        λ e. ground (arith, run)

    pub replicas_with_resource-NeverPanics :
        (namespace : String) (selector : Selector) (metric : MetricSpec) (current : ℤ)
        {source : ResourceMetricSource} {q : Quantity}
        → metric.resource ≡ some source
        → source.target.average_value ≡ some q
        → NeverPanics (replicas_with_resource fl c namespace selector metric current)
    unfolding replicas_with_resource
    replicas_with_resource-NeverPanics namespace selector metric current {source} {q} has average =
        rw (has, average)
          (>>=-NeverPanics
            (get_resource_metric c.cluster.metrics source.name namespace selector "container") _
            (get_resource_metric-NeverPanics c.cluster.metrics safe.metrics source.name namespace
              selector "container")
            λ (metrics, timestamp) _.
              after_metrics-NeverPanics namespace selector q source.name "" source.name current
                metrics timestamp timestamp)

    pub replicas_with_container_resource-NeverPanics :
        (namespace : String) (metric : MetricSpec) (selector : Selector) (current : ℤ)
        {source : ContainerResourceMetricSource} {q : Quantity}
        → metric.container_resource ≡ some source
        → source.target.average_value ≡ some q
        → NeverPanics (replicas_with_container_resource fl c namespace metric selector current)
    unfolding replicas_with_container_resource
    replicas_with_container_resource-NeverPanics namespace metric selector current {source} {q} has
          average =
        rw (has, average)
          (>>=-NeverPanics
            (get_resource_metric c.cluster.metrics source.name namespace selector source.container)
            _
            (get_resource_metric-NeverPanics c.cluster.metrics safe.metrics source.name namespace
              selector source.container)
            λ (metrics, timestamp) _.
              after_metrics-NeverPanics namespace selector q "" source.container "" current metrics
                timestamp zero_time)

    usage_ratio_replicas-NeverPanics :
        (current : ℤ) (usage : F) (namespace : String) (selector : Selector)
        → NeverPanics (usage_ratio_replicas fl c current usage namespace selector)
    unfolding usage_ratio_replicas ready_pods_count
    usage_ratio_replicas-NeverPanics current usage namespace selector p =
        let pods =
          list_pods-NeverPanics fl c namespace selector (safe.list_pods namespace selector) p in
        λ e. ground (arith, pods)

    object_replicas-NeverPanics :
        (namespace : String) (source : ObjectMetricSource) (selector : Selector) (current : ℤ)
        {q : Quantity}
        → source.target.value ≡ some q
        → NeverPanics (object_replicas fl c namespace source selector current)
    unfolding object_replicas
    object_replicas-NeverPanics namespace source selector current {q} value =
        >>=-NeverPanics (c.cluster.as_selector source.metric.selector) _
          (safe.as_selector source.metric.selector)
          λ metric_selector _.
            >>=-NeverPanics
              (get_object_metric c.cluster.metrics source.metric.name namespace
                source.described_object (some metric_selector))
              _
              (get_object_metric-NeverPanics c.cluster.metrics safe.metrics source.metric.name
                namespace source.described_object (some metric_selector))
              λ (utilization, timestamp) _ p.
                let usage = fl.div (fl.of_int utilization) (fl.of_int q.milli_value) in
                let run = usage_ratio_replicas-NeverPanics current usage namespace selector p in
                λ e. ground (arith, run, value)

    object_replicas_per_pod-NeverPanics :
        (namespace : String) (source : ObjectMetricSource) (current : ℤ) {q : Quantity}
        → source.target.average_value ≡ some q
        → NeverPanics (object_replicas_per_pod fl c namespace source current)
    unfolding object_replicas_per_pod
    object_replicas_per_pod-NeverPanics namespace source current {q} value =
        >>=-NeverPanics (c.cluster.as_selector source.metric.selector) _
          (safe.as_selector source.metric.selector)
          λ metric_selector _.
            >>=-NeverPanics
              (get_object_metric c.cluster.metrics source.metric.name namespace
                source.described_object (some metric_selector))
              _
              (get_object_metric-NeverPanics c.cluster.metrics safe.metrics source.metric.name
                namespace source.described_object (some metric_selector))
              λ (utilization, timestamp) _ p. λ e. ground (arith, value)

    pub replicas_with_object-NeverPanics :
        (namespace : String) (selector : Selector) (metric : MetricSpec) (current : ℤ)
        {source : ObjectMetricSource}
        → metric.object ≡ some source
        → HasTarget source
        → NeverPanics (replicas_with_object fl c namespace selector metric current)
    unfolding replicas_with_object
    replicas_with_object-NeverPanics namespace selector metric current {source} has (value, average)
          p =
        elim (Bool-cases (str_eq source.target.type "Value")) [
          | inl plain ↦
              let (q, e) = value (ground (arith, eq_iff source.target.type "Value")) in
              let run = object_replicas-NeverPanics namespace source selector current e p in
              λ bad. ground (arith, run)
          | inr other ↦ elim (Bool-cases (str_eq source.target.type "AverageValue")) [
            | inl per_pod ↦
                let (q, e) = average (ground (arith, eq_iff source.target.type "AverageValue")) in
                let run = object_replicas_per_pod-NeverPanics namespace source current e p in
                λ bad. ground (arith, run)
            | inr neither ↦ λ bad. ground arith
          ]
        ]
