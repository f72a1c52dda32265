-- ===== src/Metrics/Utilization.antt =====
-- pkg/zaohua/daofa/metrics/utilization.go.
use mathlib.Core.List.{foldl}
use sunwukong.Base.{
  String, ℕ, suc, none, some, length, no_requests, divide_by_zero, Result, ok, err, panic, ◌>>=◌,
  if◌then◌else◌,
}
use sunwukong.Base.Int.{ℤ, pos, eqb_ℤ}
use sunwukong.Base.Words.{◌+64◌, mul64, quot64, wrap32}
use sunwukong.Base.Dict.{Dict, lookup}
use sunwukong.Float.{Float}
use sunwukong.Metrics.Api.{PodMetric, PodMetricsInfo}

-- Go's `a / b` on int64, which panics at 0.
abbrev pub div64 : ℤ → ℤ → Result ℤ
div64 a b = if eqb_ℤ b (pos 0) then panic divide_by_zero else ok (quot64 a b)

pub record Totals : Type 0 where
  pub metrics_total : ℤ
  pub requests_total : ℤ
  pub num_entries : ℕ

abbrev pub no_totals : Totals
no_totals = record { metrics_total = pos 0; requests_total = pos 0; num_entries = 0 }

abbrev pub add_entry : Dict ℤ → Totals → String × PodMetric → Totals
add_entry requests t (name, m) = elim (lookup name requests) [
  | none ↦ t
  | some request ↦ record {
    metrics_total = t.metrics_total +64 m.value;
    requests_total = t.requests_total +64 request;
    num_entries = suc t.num_entries;
  }
]

unfoldable pub totals : Dict ℤ → PodMetricsInfo → Totals
totals requests = foldl (add_entry requests) no_totals

abbrev pub add_value : ℤ → String × PodMetric → ℤ
add_value total (name, m) = total +64 m.value

unfoldable pub sum_values : PodMetricsInfo → ℤ
sum_values = foldl add_value (pos 0)

module _ {F : Type 0} (fl : Float F) where
  open fl use {of_int, div}

  -- `GetResourceUtilizationRatio`: the ratio to the target, the utilization and the raw average.
  unfoldable pub resource_utilization_ratio : PodMetricsInfo → Dict ℤ → ℤ → Result (F × ℤ × ℤ)
  unfolding totals
  resource_utilization_ratio metrics requests target = do
    let t = totals requests metrics
    if eqb_ℤ t.requests_total (pos 0) then err no_requests else (do
      q ← div64 (mul64 t.metrics_total (pos 100)) t.requests_total
      let current = wrap32 q
      raw ← div64 t.metrics_total (pos t.num_entries)
      ok (div (of_int current) (of_int target), current, raw))

  -- `GetMetricUtilizationRatio`: the ratio to the target, and the average.
  unfoldable pub metric_utilization_ratio : PodMetricsInfo → ℤ → Result (F × ℤ)
  unfolding sum_values
  metric_utilization_ratio metrics target = do
    current ← div64 (sum_values metrics) (pos (length metrics))
    ok (div (of_int current) (of_int target), current)
