-- ===== src/Daofa/Replicas/Live.antt =====
-- What the calculations of pkg/zaohua/daofa/replica_calculator.go make of pods that have not failed.
use mathlib.Core.List.{foldl}
use sunwukong.Base.{
  String, ◌≡◌, refl, sym, ap, ◌∙◌, ◌⊎◌, inl, inr, Bool, true, false, none, some, List, [], ◌∷◌, All,
  All-map, arith, str_eq, eq_iff, no_requests, no_pod_metrics, ok, err, >>=-eq-ok, Bool-cases,
}
use sunwukong.Base.Int.{ℤ, pos}
use sunwukong.Base.Dict.{Dict, lookup, insert, delete, lookup-insert, All-delete, delete-IsOther}
use sunwukong.Base.StringSet.{contains}
use sunwukong.Float.{Float}
use sunwukong.Kube.Time.{Time, zero_time}
use sunwukong.Kube.Pods.{Pod, Quantity}
use sunwukong.Kube.Autoscaling.{Selector, MetricSpec, ResourceMetricSource, IdentifiedSource}
use sunwukong.Metrics.Api.{PodMetric, PodMetricsInfo}
use sunwukong.Metrics.Client.{get_resource_metric, get_raw_metric}
use sunwukong.Metrics.Utilization.{totals, add_entry, no_totals, Totals, resource_utilization_ratio}
use sunwukong.Daofa.Groups.{Groups, group_pods}
use sunwukong.Daofa.Groups.Partition.{IsLive, has_name, group_pods_live}
use sunwukong.Daofa.Requests.{
  pod_request, requests_loop, calculate_pod_requests, calculate_pod_requests_lem,
}
use sunwukong.Daofa.Cluster.{CalculateHandle, rules_of}
use sunwukong.Daofa.Replicas.Balance.{list_pods, is_empty, delete_all, discard}
use sunwukong.Daofa.Replicas.Pods.{replicas_with_pods, plain_metric_replicas}
use sunwukong.Daofa.Replicas.Resource.{calculate_from_metrics, replicas_with_resource}

All-delete_all {κ} :
    (P : String × PodMetric → Type κ) (names : List String) (d : PodMetricsInfo)
    → All P d
    → All P (delete_all names d)
unfolding delete_all
All-delete_all P [] d h = h
All-delete_all P (k ∷ names) d h = All-delete_all P names (delete k d) (All-delete P k d h)

-- An entry whose name is none of the deleted ones.
abbrev pub IsKept : List String → String × PodMetric → Type 0
IsKept names e = contains e.0 names ≡ false

All-and :
    (k : String) (names : List String) (d : PodMetricsInfo)
    → All (λ e. str_eq e.0 k ≡ false) d
    → All (IsKept names) d
    → All (IsKept (k ∷ names)) d
unfolding contains
All-and k names [] h g = tt
All-and k names (e ∷ d) (h, hs) (g, gs) =
    (ground (arith, eq_iff e.0 k, eq_iff k e.0), All-and k names d hs gs)

IsKept-nil : (d : PodMetricsInfo) → All (IsKept []) d
unfolding contains
IsKept-nil [] = tt
IsKept-nil (e ∷ d) = (refl, IsKept-nil d)

delete_all-IsKept :
    (names : List String) (d : PodMetricsInfo) → All (IsKept names) (delete_all names d)
unfolding delete_all
delete_all-IsKept [] d = IsKept-nil d
delete_all-IsKept (k ∷ names) d =
    All-and k names _ (All-delete_all _ names (delete k d) (delete-IsOther k d))
      (delete_all-IsKept names (delete k d))

discard-All :
    (P : String × PodMetric → Type 0) (groups : Groups) (d : PodMetricsInfo)
    → All P d
    → All P (discard groups d)
unfolding discard
discard-All P groups d h =
    All-delete_all _ groups.ignored_pods _ (All-delete_all _ groups.unready_pods d h)

no_entry :
    (p : String → Bool) (d : PodMetricsInfo)
    → All (λ e. p e.0 ≡ false) d
    → All (λ e. p e.0 ≡ true) d
    → is_empty d ≡ true
no_entry p [] h g = refl
no_entry p (e ∷ d) (h, _) (g, _) = cc

-- The requests are for the names of the pods.
requests_loop-has_name :
    (container resource : String) (pods : List Pod) (requests d : Dict ℤ) (k : String)
    → requests_loop container resource pods requests ≡ ok d
    → has_name k pods ≡ false
    → lookup k requests ≡ none
    → lookup k d ≡ none
unfolding requests_loop
requests_loop-has_name container resource [] requests d k h n e = ground arith
requests_loop-has_name container resource (pod ∷ pods) requests d k h n e =
    let (s, _, h') = >>=-eq-ok (pod_request container resource pod.containers (pos 0)) _ h in
    requests_loop-has_name container resource pods (insert pod.name s requests) d k h'
      (ground arith) (ground (arith, lookup-insert pod.name k s requests))

totals_none :
    (requests : Dict ℤ) (metrics : PodMetricsInfo) (t : Totals)
    → All (λ e. lookup e.0 requests ≡ none) metrics
    → foldl (add_entry requests) t metrics ≡ t
totals_none requests [] t h = refl
totals_none requests ((k, m) ∷ metrics) t (h, hs) =
    let same : add_entry requests t (k, m) ≡ t = ground arith in
    ap (λ t'. foldl (add_entry requests) t' metrics) same ∙ totals_none requests metrics t hs

module _ {F : Type 0} (fl : Float F) (c : CalculateHandle F) (metrics : PodMetricsInfo)
    (group_by : String) (pod : Pod) (pods : List Pod) (live : All IsLive (pod ∷ pods)) where
  abbrev groups_of : Groups
  groups_of = group_pods (rules_of c) group_by c.cluster.clock metrics (pod ∷ pods)

  -- Nothing that is left after the grouping belongs to a pod.
  discard_live : All (λ e. has_name e.0 (pod ∷ pods) ≡ false) (discard groups_of metrics)
  unfolding discard
  discard_live =
      let (_, _, _, ignored) =
        group_pods_live (rules_of c) group_by metrics c.cluster.clock (pod ∷ pods) live in
      All-map (λ e h. sym (ignored e.0) ∙ h) _ (delete_all-IsKept groups_of.ignored_pods _)

  ratio_live :
      (container resource : String) (d : Dict ℤ) (target : ℤ)
      → calculate_pod_requests (pod ∷ pods) container resource ≡ ok d
      → resource_utilization_ratio fl (discard groups_of metrics) d target ≡ err no_requests
  unfolding calculate_pod_requests resource_utilization_ratio totals lookup
  ratio_live container resource d target h =
      let none_of =
        All-map (λ e n. requests_loop-has_name container resource (pod ∷ pods) [] d e.0 h n refl) _
          discard_live in
      rw (totals_none d (discard groups_of metrics) no_totals none_of)

  calculate_live :
      (namespace container resource : String) (selector : Selector) (q : Quantity) (current : ℤ)
      (timestamp kept_time : Time) (d : Dict ℤ)
      → c.cluster.list_pods namespace selector ≡ ok (pod ∷ pods)
      → calculate_pod_requests (pod ∷ pods) container resource ≡ ok d
      → calculate_from_metrics fl c namespace selector
          (some q)
          group_by
          container
          resource
          current
          metrics
          timestamp
          kept_time
        ≡ err no_requests
  unfolding calculate_from_metrics list_pods
  calculate_live namespace container resource selector q current timestamp kept_time d listed e =
      rw (listed, e, ratio_live container resource d q.milli_value e)

  -- Metrics that all belong to the pods are all discarded.
  discard_live_empty :
      All (λ e. has_name e.0 (pod ∷ pods) ≡ true) metrics
      → is_empty (discard groups_of metrics) ≡ true
  discard_live_empty h =
      no_entry (λ k. has_name k (pod ∷ pods)) (discard groups_of metrics) discard_live
        (discard-All _ groups_of metrics h)

module _ {F : Type 0} (fl : Float F) (c : CalculateHandle F) (namespace : String)
    (selector : Selector) (metric : MetricSpec) (current : ℤ) (pod : Pod) (pods : List Pod)
    (live : All IsLive (pod ∷ pods))
    (listed : c.cluster.list_pods namespace selector ≡ ok (pod ∷ pods)) where
  -- If each listed pod, of which there is one at least, has not failed or is being deleted, the
  -- calculation for a resource metric with an average value ends in an error, whatever metrics the
  -- API answers with: those of all pods are discarded.
  pub replicas_with_resource_live :
      {source : ResourceMetricSource} {q : Quantity} (metrics : PodMetricsInfo) {timestamp : Time}
      → metric.resource ≡ some source
      → source.target.average_value ≡ some q
      → get_resource_metric c.cluster.metrics source.name namespace selector "container"
        ≡ ok (metrics, timestamp)
      → let r = replicas_with_resource fl c namespace selector metric current in
        (r ≡ err no_requests) ⊎ (r ≡ err no_pod_metrics)
  unfolding replicas_with_resource
  replicas_with_resource_live {source} {q} metrics {timestamp} m t f =
      let (d, e) = (calculate_pod_requests_lem (pod ∷ pods) "" source.name).0 in
      let run =
        calculate_live fl c metrics source.name pod pods live namespace "" source.name selector q
          current timestamp timestamp d listed e in
      elim (Bool-cases (is_empty metrics)) [
        | inl none_left ↦ inr (rw (m, f, none_left))
        | inr some_left ↦ inl (rw (m, f, some_left, t) run)
      ]

  -- If each listed pod, of which there is one at least, has not failed or is being deleted, and the
  -- API answers with metrics of those pods alone, the calculation for a pods metric with an average
  -- value answers 0 replicas and no error.
  pub replicas_with_pods_live :
      {source : IdentifiedSource} {q : Quantity} (metrics : PodMetricsInfo) {timestamp : Time}
      (metric_selector : Selector)
      → metric.pods ≡ some source
      → source.target.average_value ≡ some q
      → c.cluster.as_selector source.metric.selector ≡ ok metric_selector
      → get_raw_metric c.cluster.metrics source.metric.name namespace selector
          (some metric_selector)
        ≡ ok (metrics, timestamp)
      → All (λ e. has_name e.0 (pod ∷ pods) ≡ true) metrics
      → replicas_with_pods fl c namespace selector metric current ≡ ok (pos 0, zero_time)
  unfolding replicas_with_pods plain_metric_replicas list_pods
  replicas_with_pods_live metrics s m t a f known =
      rw (m, a, f, t, listed, discard_live_empty fl c metrics "" pod pods live known)
