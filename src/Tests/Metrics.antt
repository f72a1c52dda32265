-- ===== src/Tests/Metrics.antt =====
-- Runs of pkg/zaohua/daofa/metrics.
use mathlib.Core.List.{Perm, Permᴰ}
use sunwukong.Base.{
  arith, divide_by_zero, ◌≡◌, refl, some, List, [], ◌∷◌, All, no_container_in_metrics, ok, err,
  panic, String,
}
use sunwukong.Base.Int.{ℤ, pos, negsuc, ◌+ℤ◌, ◌*ℤ◌, quot_ℤ}
use sunwukong.Base.Dict.{Dict, lookup, insert}
use sunwukong.Base.Words.{◌+64◌, wrap64, max_int64}
use sunwukong.Kube.Pods.{PodMetrics}
use sunwukong.Metrics.Api.{PodMetricsInfo}
use sunwukong.Metrics.Client.{get_pod_metrics, get_container_metrics, metric_of}
use sunwukong.Metrics.Utilization.{resource_utilization_ratio, metric_utilization_ratio}
use sunwukong.Metrics.Reports.{report_of, HasContainer, container_usage}
use sunwukong.Metrics.Selected.{last_metric, lookup-get_pod_metrics, get_container_metrics_lem}
use sunwukong.Metrics.Exact.{
  exact_sum, exact_totals, metric_utilization_ratio_exact, resource_utilization_ratio_exact,
}
use sunwukong.Metrics.Order.{ratios-Perm}
use sunwukong.Tests.Fixture.{fl, item_of}

abbrev items : List PodMetrics
items = item_of "a" (pos 500) ∷ item_of "b" (pos 300) ∷ item_of "a" (pos 700) ∷ []

abbrev metrics : PodMetricsInfo
metrics =
    ("a", metric_of (item_of "a" (pos 700)) (pos 700))
    ∷ ("b", metric_of (item_of "b" (pos 300)) (pos 300))
    ∷ []

abbrev swapped : PodMetricsInfo
swapped =
    ("b", metric_of (item_of "b" (pos 300)) (pos 300))
    ∷ ("a", metric_of (item_of "a" (pos 700)) (pos 700))
    ∷ []

abbrev requests : Dict ℤ
requests = ("a", pos 1000) ∷ ("b", pos 1000) ∷ []

get_pod_metrics_run :
    lookup "a" (get_pod_metrics items "memory") ≡ some (metric_of (item_of "a" (pos 700)) (pos 700))
unfolding get_pod_metrics lookup insert ◌+64◌ wrap64 ◌+ℤ◌
get_pod_metrics_run = refl

lookup-get_pod_metrics_example :
    lookup "a" (get_pod_metrics items "memory")
    ≡ last_metric (λ m. report_of "memory" m.containers) "a" items
lookup-get_pod_metrics_example = lookup-get_pod_metrics "memory" "a" items

get_container_metrics_lem_example :
    (All (HasContainer "container") items
      → (res : PodMetricsInfo) × (get_container_metrics items "memory" "container" ≡ ok res)
        × ((k : String)
            → lookup k res ≡ last_metric (container_usage "memory" "container") k items))
    × (¬ All (HasContainer "container") items
        → get_container_metrics items "memory" "container"
          ≡ err (no_container_in_metrics "container"))
get_container_metrics_lem_example = get_container_metrics_lem "memory" "container" items

swap_metrics : Perm metrics swapped
swap_metrics = ∣ Permᴰ.swap refl refl ∣₁

ratios-Perm_example :
    (resource_utilization_ratio fl metrics requests (pos 50)
      ≡ resource_utilization_ratio fl swapped requests (pos 50))
    × (metric_utilization_ratio fl metrics (pos 50) ≡ metric_utilization_ratio fl swapped (pos 50))
ratios-Perm_example = ratios-Perm fl requests (pos 50) swap_metrics

resource_utilization_ratio_exact_example :
    resource_utilization_ratio fl metrics requests (pos 50)
    ≡ ok (fl.div (fl.of_int (pos 50)) (fl.of_int (pos 50)), pos 50, pos 500)
unfolding exact_totals lookup ◌+ℤ◌ ◌*ℤ◌ quot_ℤ
resource_utilization_ratio_exact_example =
    resource_utilization_ratio_exact fl metrics requests (pos 50) 1999 refl
      (omega arith, omega arith) (omega arith, omega arith) (omega arith, omega arith)

-- The first partial sum is not an int64; the sum is.
abbrev smaller : PodMetricsInfo
smaller =
    ("b", metric_of (item_of "b" (pos 300)) (pos 5))
    ∷ ("c", metric_of (item_of "c" (pos 300)) (negsuc 4))
    ∷ []

metric_utilization_ratio_exact_example :
    (metric_utilization_ratio fl [] (pos 50) ≡ panic divide_by_zero)
    × (metric_utilization_ratio fl
          (("a", metric_of (item_of "a" (pos 700)) max_int64) ∷ smaller)
          (pos 50)
        ≡ ok (
          fl.div (fl.of_int (pos 3_074_457_345_618_258_602)) (fl.of_int (pos 50)),
          pos 3_074_457_345_618_258_602,
        ))
unfolding exact_sum ◌+ℤ◌ quot_ℤ
metric_utilization_ratio_exact_example =
    metric_utilization_ratio_exact fl ("a", metric_of (item_of "a" (pos 700)) max_int64) smaller
      (pos 50) (omega arith, omega arith)
