-- ===== src/Daofa/Replicas/Balance.antt =====
-- The steps that the calculations of pkg/zaohua/daofa/replica_calculator.go have in common.
use sunwukong.Base.{
  String, ℕ, Bool, true, false, not, ◌&&◌, ◌||◌, Option, none, some, List, [], ◌∷◌, no_pods, Result,
  ok, err, ◌>>=◌, if◌then◌else◌,
}
use sunwukong.Base.Int.{ℤ, pos, ltb_ℤ}
use sunwukong.Base.Dict.{insert, delete}
use sunwukong.Float.{Float}
use sunwukong.Kube.Time.{zero_time}
use sunwukong.Kube.Pods.{Pod}
use sunwukong.Kube.Autoscaling.{Selector}
use sunwukong.Metrics.Api.{PodMetricsInfo}
use sunwukong.Daofa.Groups.{Groups}
use sunwukong.Daofa.Cluster.{Cluster}

-- `c.Client.List`, and the test for an empty list.
unfoldable pub list_pods : Cluster → String → Selector → Result (List Pod)
list_pods cluster namespace selector = do
  pods ← cluster.list_pods namespace selector
  elim pods [ [] ↦ err no_pods | pod ∷ rest ↦ ok (pod ∷ rest) ]

abbrev pub is_empty {ℓ} : {A : Type ℓ} → List A → Bool
is_empty [] = true
is_empty (x ∷ xs) = false

-- `for podName := range names { delete(metrics, podName) }`
unfoldable pub delete_all : List String → PodMetricsInfo → PodMetricsInfo
delete_all [] metrics = metrics
delete_all (name ∷ names) metrics = delete_all names (delete name metrics)

-- The metrics without those of the unready and the ignored pods.
unfoldable pub discard : Groups → PodMetricsInfo → PodMetricsInfo
unfolding delete_all
discard groups metrics = delete_all groups.ignored_pods (delete_all groups.unready_pods metrics)

-- `for podName := range names { metrics[podName] = PodMetric{Value: value} }`
unfoldable pub fill : List String → ℤ → PodMetricsInfo → PodMetricsInfo
fill [] value metrics = metrics
fill (name ∷ names) value metrics =
    fill names value
      (insert name (record { timestamp = zero_time; window = pos 0; value = value }) metrics)

module _ {F : Type 0} (fl : Float F) where
  open fl use {of_int, sub, mul, abs, ceil, lt, le, to_int32}

  -- `ratio > 1.0` and `ratio < 1.0`
  abbrev pub is_above : F → Bool
  is_above ratio = lt (of_int (pos 1)) ratio

  abbrev pub is_under : F → Bool
  is_under ratio = lt ratio (of_int (pos 1))

  -- `math.Abs(1.0-ratio) <= c.ScaleTolerance`
  abbrev pub is_tolerable : F → F → Bool
  is_tolerable tolerance ratio = le (abs (sub (of_int (pos 1)) ratio)) tolerance

  -- `int32(math.Ceil(ratio * float64(n)))`
  unfoldable pub scaled : F → ℤ → ℤ
  scaled ratio n = to_int32 (ceil (mul ratio (of_int n)))

  -- `rebalanceIgnored`
  abbrev pub is_rebalanced : Groups → F → Bool
  is_rebalanced groups usage = not (is_empty groups.unready_pods) && is_above usage

  -- The metrics after the missing pods, and under `rebalanceIgnored` the unready ones, got a value.
  unfoldable pub adjust : Groups → F → ℤ → PodMetricsInfo → PodMetricsInfo
  unfolding fill
  adjust groups usage target metrics =
      let filled =
        if is_empty groups.missing_pods
        then metrics
        else fill groups.missing_pods (if is_under usage then target else pos 0) metrics in
      if is_rebalanced groups usage then fill groups.unready_pods (pos 0) filled else filled

  -- The last two tests: `none` where the current number is returned.
  unfoldable pub decide_replicas : F → F → ℤ → ℕ → F → Option ℤ
  unfolding scaled
  decide_replicas tolerance usage current entries new_usage =
      if is_tolerable tolerance new_usage
        || is_under usage && is_above new_usage
        || is_above usage && is_under new_usage
      then none
      else (let replicas = scaled new_usage (pos entries) in
          if is_under new_usage && ltb_ℤ current replicas
            || is_above new_usage && ltb_ℤ replicas current
          then none
          else some replicas)
