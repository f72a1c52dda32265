-- ===== src/Tests/Replicas.antt =====
-- Runs of pkg/zaohua/daofa/replica_calculator.go.
use sunwukong.Base.{
  NeverPanics, String, eq_iff, ◌≡◌, refl, ◌≢◌, ◌⊎◌, inl, true, some, [], ◌∷◌, ◌≤◌, All, arith,
  no_requests, no_pod_metrics, missing_request, ok, err,
}
use sunwukong.Base.Int.{ℤ, pos, ◌≤ℤ◌, ◌*ℤ◌, ◌-ℤ◌, ◌+ℤ◌, quot_ℤ}
use sunwukong.Base.Words.{quot64, wrap64, ◌+64◌, wrap32}
use sunwukong.Metrics.Utilization.{metric_utilization_ratio}
use sunwukong.Base.Dict.{Dict, lookup, insert}
use sunwukong.Base.StringSet.{contains}
use sunwukong.Float.Rational.{Fraction, frac}
use sunwukong.Kube.Time.{zero_time}
use sunwukong.Kube.Pods.{PodPhase}
use sunwukong.Metrics.Api.{PodMetricsInfo}
use sunwukong.Metrics.Client.{find_container, metric_of, get_resource_metric, get_raw_metric}
use sunwukong.Daofa.Groups.{Groups, group_pods}
use sunwukong.Daofa.Groups.Partition.{has_name, size, group_pods_live, group_pods_partition}
use sunwukong.Daofa.Requests.{calculate_pod_requests, IsUniform, calculate_pod_requests_lem}
use sunwukong.Daofa.Cluster.{CalculateHandle, rules_of}
use sunwukong.Daofa.Replicas.Balance.{is_under, is_above, adjust, decide_replicas}
use sunwukong.Daofa.Replicas.Resource.{replicas_with_resource, calculate_from_metrics, rebalance}
use sunwukong.Daofa.Replicas.Pods.{replicas_with_pods}
use sunwukong.Daofa.Replicas.Live.{replicas_with_resource_live, replicas_with_pods_live}
use sunwukong.Daofa.Replicas.Safety.{rebalance_direction, calculate_from_metrics-NeverPanics}
use sunwukong.Tests.Fixture.{
  fl, milli, live_pod, failed_pod, item_of, value_of, api_of, handle_of, resource_metric,
  pods_metric,
}

abbrev live_handle : CalculateHandle Fraction
live_handle =
    handle_of (live_pod ∷ [])
      (api_of (item_of "live" (pos 2000) ∷ []) (value_of "live" (pos 2000) ∷ []) (pos 4000))

abbrev failed_handle : CalculateHandle Fraction
failed_handle =
    handle_of (failed_pod ∷ []) (api_of (item_of "failed" (pos 2000) ∷ []) [] (pos 4000))

abbrev metrics : PodMetricsInfo
metrics = ("live", metric_of (item_of "live" (pos 2000)) (pos 2000)) ∷ []

running-ne-failed : PodPhase.running ≢ PodPhase.failed
running-ne-failed e = cc

replicas_with_resource_live_example :
    let r =
      replicas_with_resource fl live_handle "ns" "app=web" (resource_metric (pos 1000)) (pos 1) in
    (r ≡ err no_requests) ⊎ (r ≡ err no_pod_metrics)
unfolding get_resource_metric find_container lookup
replicas_with_resource_live_example =
    replicas_with_resource_live fl live_handle "ns" "app=web" (resource_metric (pos 1000)) (pos 1)
      live_pod [] (inl running-ne-failed, tt) refl _ refl refl refl

replicas_with_pods_live_example :
    replicas_with_pods fl live_handle "ns" "app=web" (pods_metric (pos 1000)) (pos 1)
    ≡ ok (pos 0, zero_time)
unfolding get_raw_metric insert
replicas_with_pods_live_example =
    replicas_with_pods_live fl live_handle "ns" "app=web" (pods_metric (pos 1000)) (pos 1) live_pod
      [] (inl running-ne-failed, tt) refl _ "app=web" refl refl refl refl (refl, tt)

calculate_from_metrics-NeverPanics_example : NeverPanics (
    calculate_from_metrics fl failed_handle "ns" "app=web"
      (some (milli (pos 1000)))
      "memory"
      ""
      "memory"
      (pos 1)
      metrics
      (pos 100)
      (pos 100))
calculate_from_metrics-NeverPanics_example =
    calculate_from_metrics-NeverPanics fl failed_handle "ns" "app=web" (milli (pos 1000)) "memory"
      "" "memory" (pos 1) metrics (pos 100) (pos 100) (λ p e. cc)

calculate_pod_requests_lem_example :
    ((d : Dict ℤ) × (calculate_pod_requests (live_pod ∷ []) "" "memory" ≡ ok d))
    × (All (IsUniform "sidecar") (live_pod ∷ [])
        → (d : Dict ℤ) × (calculate_pod_requests (live_pod ∷ []) "sidecar" "memory" ≡ ok d))
    × (◌≢◌ {A = String} "sidecar" ""
        → ¬ All (IsUniform "sidecar") (live_pod ∷ [])
        → calculate_pod_requests (live_pod ∷ []) "sidecar" "memory"
          ≡ err (missing_request "memory"))
calculate_pod_requests_lem_example = calculate_pod_requests_lem (live_pod ∷ []) "sidecar" "memory"

group_pods_live_example :
    let g = group_pods (rules_of live_handle) "memory" (λ i. pos 200) metrics (live_pod ∷ []) in
    (g.ready_pod_count ≡ 0)
    × (g.unready_pods ≡ [])
    × (g.missing_pods ≡ [])
    × ((name : String) → contains name g.ignored_pods ≡ has_name name (live_pod ∷ []))
group_pods_live_example =
    group_pods_live (rules_of live_handle) "memory" metrics (λ i. pos 200) (live_pod ∷ [])
      (inl running-ne-failed, tt)

failed-ne-live : failed_pod.name ≢ live_pod.name
failed-ne-live e = ground (arith, eq_iff "failed" "live")

group_pods_partition_example :
    let g =
      group_pods
        (rules_of live_handle)
        "memory"
        (λ i. pos 200)
        metrics
        (live_pod ∷ failed_pod ∷ []) in
    (size g ≡ 2) × (g.ready_pod_count ≤ 1)
group_pods_partition_example =
    group_pods_partition (rules_of live_handle) "memory" metrics (λ i. pos 200)
      (live_pod ∷ failed_pod ∷ []) ((failed-ne-live, tt), (tt, tt))

abbrev one_missing : Groups
one_missing = record {
  ready_pod_count = 1;
  unready_pods = [];
  missing_pods = "late" ∷ [];
  ignored_pods = [];
}

abbrev heavy : PodMetricsInfo
heavy = ("failed", metric_of (item_of "failed" (pos 4000)) (pos 4000)) ∷ []

rebalance_direction_example :
    (is_under fl (frac (pos 2000) 1000) ≡ true → pos 4 ≤ℤ pos 1)
    × (is_above fl (frac (pos 2000) 1000) ≡ true → pos 1 ≤ℤ pos 4)
unfolding rebalance metric_utilization_ratio adjust insert decide_replicas ◌*ℤ◌ ◌-ℤ◌ quot64 wrap64
    quot_ℤ ◌+64◌ ◌+ℤ◌ wrap32
rebalance_direction_example =
    rebalance_direction fl failed_handle one_missing heavy (frac (pos 4) 1) (pos 1000) (pos 1)
      (pos 100) (pos 100) refl refl refl
