-- ===== src/Daofa/Replicas/Safety.antt =====
-- The calculations of pkg/zaohua/daofa/replica_calculator.go never divide by 0, and never move
-- against the ratio.
use sunwukong.Base.{
  String, ℕ, ◌≡◌, refl, inl, inr, true, false, not, ◌&&◌, some, List, [], ◌∷◌, length, arith,
  NeverPanics, >>=-NeverPanics, ok, if◌then◌else◌, Bool-cases, Option-cases,
}
use sunwukong.Base.Int.{ℤ, pos, ◌≤ℤ◌}
use sunwukong.Base.Words.{quot64}
use sunwukong.Base.Dict.{Dict, insert}
use sunwukong.Float.{Float}
use sunwukong.Kube.Time.{Time}
use sunwukong.Kube.Pods.{Pod, Container, Quantity}
use sunwukong.Kube.Autoscaling.{Selector}
use sunwukong.Metrics.Api.{PodMetric, PodMetricsInfo}
use sunwukong.Metrics.Utilization.{
  totals, sum_values, resource_utilization_ratio, metric_utilization_ratio,
}
use sunwukong.Metrics.Failures.{resource_utilization_ratio_safe}
use sunwukong.Daofa.Groups.{Groups, group_pods}
use sunwukong.Daofa.Requests.{pod_request, requests_loop, calculate_pod_requests, add_request}
use sunwukong.Daofa.Cluster.{CalculateHandle, rules_of}
use sunwukong.Daofa.Replicas.Balance.{
  list_pods, is_empty, fill, discard, is_above, is_under, is_tolerable, scaled, is_rebalanced,
  adjust, decide_replicas,
}
use sunwukong.Daofa.Replicas.Resource.{rebalance, calculate_from_metrics}

insert-is_empty :
    (k : String) (m : PodMetric) (d : PodMetricsInfo) → is_empty (insert k m d) ≡ false
unfolding insert
insert-is_empty k m [] = refl
insert-is_empty k m (e ∷ d) = ground arith

fill-is_empty :
    (names : List String) (v : ℤ) (d : PodMetricsInfo)
    → is_empty d ≡ false
    → is_empty (fill names v d) ≡ false
unfolding fill
fill-is_empty [] v d h = h
fill-is_empty (k ∷ names) v d h = fill-is_empty names v _ (insert-is_empty k _ d)

pod_request-NeverPanics :
    (container resource : String) (cs : List Container) (sum : ℤ)
    → NeverPanics (pod_request container resource cs sum)
unfolding pod_request
pod_request-NeverPanics container resource [] sum p = λ e. cc
pod_request-NeverPanics container resource (c ∷ cs) sum p =
    let rest = pod_request-NeverPanics container resource cs (add_request resource c sum) p in
    λ e. ground (arith, rest)

requests_loop-NeverPanics :
    (container resource : String) (pods : List Pod) (requests : Dict ℤ)
    → NeverPanics (requests_loop container resource pods requests)
unfolding requests_loop
requests_loop-NeverPanics container resource [] requests p = λ e. cc
requests_loop-NeverPanics container resource (pod ∷ pods) requests p = λ e. grind (
  arith,
  pod_request-NeverPanics container resource pod.containers (pos 0) p,
  λ (s : ℤ). requests_loop-NeverPanics container resource pods (insert pod.name s requests) p,
)

calculate_pod_requests-NeverPanics :
    (pods : List Pod) (container resource : String)
    → NeverPanics (calculate_pod_requests pods container resource)
unfolding calculate_pod_requests
calculate_pod_requests-NeverPanics pods container resource =
    requests_loop-NeverPanics container resource pods []

module _ {F : Type 0} (fl : Float F) where
  adjust-is_empty :
      (groups : Groups) (usage : F) (target : ℤ) (metrics : PodMetricsInfo)
      → is_empty metrics ≡ false
      → is_empty (adjust fl groups usage target metrics) ≡ false
  unfolding adjust
  adjust-is_empty groups usage target metrics h =
      let v = if is_under fl usage then target else pos 0 in
      let filled = fill-is_empty groups.missing_pods v metrics h in
      ground (
        arith,
        filled,
        fill-is_empty groups.unready_pods (pos 0) (fill groups.missing_pods v metrics),
        fill-is_empty groups.unready_pods (pos 0) metrics,
      )

  ratio_total :
      (metrics : PodMetricsInfo) (target : ℤ)
      → is_empty metrics ≡ false
      → (r : F × ℤ) × (metric_utilization_ratio fl metrics target ≡ ok r)
  unfolding metric_utilization_ratio
  ratio_total [] target h = cc
  ratio_total (e ∷ metrics) target h =
      let avg = quot64 (sum_values (e ∷ metrics)) (pos (length (e ∷ metrics))) in
      ((fl.div (fl.of_int avg) (fl.of_int target), avg), ground arith)

module _ {F : Type 0} (fl : Float F) (c : CalculateHandle F) where
  -- With a metric left, the part after the first ratio always returns.
  rebalance_total :
      (groups : Groups) (metrics : PodMetricsInfo) (usage : F) (target current : ℤ)
      (timestamp kept_time : Time)
      → is_empty metrics ≡ false
      → (r : ℤ × Time) × (rebalance fl c groups metrics usage target current timestamp kept_time
          ≡ ok r)
  unfolding rebalance
  rebalance_total groups metrics usage target current timestamp kept_time h =
      let t = c.scale_tolerance in
      let adjusted = adjust fl groups usage target metrics in
      let ((new, avg), e) =
        ratio_total fl adjusted target (adjust-is_empty fl groups usage target metrics h) in
      elim (Bool-cases (not (is_rebalanced fl groups usage) && is_empty groups.missing_pods)) [
        | inl plain ↦
            let n =
              if is_tolerable fl t usage
              then current
              else scaled fl usage (pos groups.ready_pod_count) in
            ((n, timestamp), rw plain)
        | inr adjusting ↦
            elim (Option-cases (decide_replicas fl t usage current (length adjusted) new)) [
              | inl kept ↦ ((current, kept_time), ground (arith, e))
              | inr (n, moved) ↦ ((n, timestamp), ground (arith, e))
            ]
      ]

  decide_replicas_direction :
      (tolerance usage new : F) (current m : ℤ) (entries : ℕ)
      → decide_replicas fl tolerance usage current entries new ≡ some m
      → (is_under fl new ≡ true → m ≤ℤ current) × (is_above fl new ≡ true → current ≤ℤ m)
  unfolding decide_replicas
  decide_replicas_direction tolerance usage new current m entries h = ground arith

  -- Where pods are missing or unready ones are brought back in, a ratio under 1 after the
  -- adjustment never raises the number of replicas, and one above 1 never lowers it.
  pub rebalance_direction :
      (groups : Groups) (metrics : PodMetricsInfo) (usage : F) (target current : ℤ)
      (timestamp kept_time : Time) {new : F} {avg n : ℤ} {t : Time}
      → (not (is_rebalanced fl groups usage) && is_empty groups.missing_pods) ≡ false
      → metric_utilization_ratio fl (adjust fl groups usage target metrics) target ≡ ok (new, avg)
      → rebalance fl c groups metrics usage target current timestamp kept_time ≡ ok (n, t)
      → (is_under fl new ≡ true → n ≤ℤ current) × (is_above fl new ≡ true → current ≤ℤ n)
  unfolding rebalance
  rebalance_direction groups metrics usage target current timestamp kept_time {new} adjusting e
        run =
      let size = length (adjust fl groups usage target metrics) in
      elim (Option-cases (decide_replicas fl c.scale_tolerance usage current size new)) [
        | inl kept ↦ ground arith
        | inr (m, moved) ↦
            ground (arith, decide_replicas_direction c.scale_tolerance usage new current m size)
      ]

  pub list_pods-NeverPanics :
      (namespace : String) (selector : Selector)
      → NeverPanics (c.cluster.list_pods namespace selector)
      → NeverPanics (list_pods c.cluster namespace selector)
  unfolding list_pods
  list_pods-NeverPanics namespace selector h p = λ e. ground (arith, h p)

  resource_ratio-is_empty :
      (metrics : PodMetricsInfo) (requests : Dict ℤ) (target : ℤ) {r : F × ℤ × ℤ}
      → resource_utilization_ratio fl metrics requests target ≡ ok r
      → is_empty metrics ≡ false
  unfolding resource_utilization_ratio totals
  resource_ratio-is_empty [] requests target e = cc
  resource_ratio-is_empty (m ∷ ms) requests target e = refl

  -- If listing the pods does not panic and the target has an average value, the calculation from
  -- the metrics of a resource never panics: it divides by no zero.
  pub calculate_from_metrics-NeverPanics :
      (namespace : String) (selector : Selector) (q : Quantity)
      (group_by container resource : String) (current : ℤ) (metrics : PodMetricsInfo)
      (timestamp kept_time : Time)
      → NeverPanics (c.cluster.list_pods namespace selector)
      → NeverPanics (
          calculate_from_metrics fl c namespace selector
            (some q)
            group_by
            container
            resource
            current
            metrics
            timestamp
            kept_time)
  unfolding calculate_from_metrics list_pods
  calculate_from_metrics-NeverPanics namespace selector q group_by container resource current
        metrics timestamp kept_time h =
      let target = q.milli_value in
      >>=-NeverPanics (list_pods c.cluster namespace selector) _
        (list_pods-NeverPanics namespace selector h)
        λ pods _.
          let groups = group_pods (rules_of c) group_by c.cluster.clock metrics pods in
          let kept = discard groups metrics in
          >>=-NeverPanics (calculate_pod_requests pods container resource) _
            (calculate_pod_requests-NeverPanics pods container resource)
            λ requests _.
              >>=-NeverPanics (resource_utilization_ratio fl kept requests target) _
                (resource_utilization_ratio_safe fl kept requests target).0
                λ (usage, _, _) e.
                  let left = resource_ratio-is_empty kept requests target e in
                  let (r, run) =
                    rebalance_total groups kept usage target current timestamp kept_time left in
                  λ p. rw run (λ bad. cc)
