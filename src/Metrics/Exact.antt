-- ===== src/Metrics/Exact.antt =====
-- What pkg/zaohua/daofa/metrics/utilization.go averages, as a formula over integers that do not wrap.
use mathlib.Core.List.{foldl}
use sunwukong.Base.{
  String, ℕ, suc, ◌+◌, ◌≡◌, refl, sym, ap, ◌∙◌, none, some, [], ◌∷◌, length, arith, ok, panic,
  divide_by_zero, Option-cases, inl, inr,
}
use sunwukong.Base.Int.{ℤ, pos, negsuc, ◌+ℤ◌, ◌*ℤ◌, quot_ℤ, int_laws}
use sunwukong.Base.Words.{
  wrap64, ◌+64◌, mul64, IsInt32, IsInt64, wrap32_self, wrap64_self, wrap64-add, quot64_lem,
}
use sunwukong.Base.Dict.{Dict, lookup}
use sunwukong.Float.{Float}
use sunwukong.Metrics.Api.{PodMetric, PodMetricsInfo}
use sunwukong.Metrics.Utilization.{
  Totals, add_entry, totals, no_totals, add_value, sum_values, resource_utilization_ratio,
  metric_utilization_ratio,
}

-- The sum of the values.
unfoldable pub exact_sum : PodMetricsInfo → ℤ
exact_sum [] = pos 0
exact_sum ((name, m) ∷ metrics) = m.value +ℤ exact_sum metrics

sum_values_wrapped :
    (metrics : PodMetricsInfo) (x : ℤ)
    → foldl add_value (wrap64 x) metrics ≡ wrap64 (x +ℤ exact_sum metrics)
unfolding exact_sum ◌+64◌
sum_values_wrapped [] x = let e : x +ℤ pos 0 ≡ x = omega int_laws in rw e
sum_values_wrapped ((name, m) ∷ metrics) x =
    let assoc : x +ℤ m.value +ℤ exact_sum metrics ≡ x +ℤ (m.value +ℤ exact_sum metrics) =
      omega int_laws in
    rw (wrap64-add x m.value, sum_values_wrapped metrics (x +ℤ m.value), assoc)

sum_values_lem : (metrics : PodMetricsInfo) → sum_values metrics ≡ wrap64 (exact_sum metrics)
unfolding sum_values
sum_values_lem metrics =
    let start : wrap64 (pos 0) ≡ pos 0 = wrap64_self (pos 0) (omega arith, omega arith) in
    let e : pos 0 +ℤ exact_sum metrics ≡ exact_sum metrics = omega int_laws in
    ap (λ x. foldl add_value x metrics) (sym start)
    ∙ (sum_values_wrapped metrics (pos 0) ∙ ap wrap64 e)

-- The totals over the pods that have a request.
unfoldable pub exact_totals : Dict ℤ → PodMetricsInfo → Totals
exact_totals requests [] = no_totals
exact_totals requests ((name, m) ∷ metrics) =
    let rest = exact_totals requests metrics in
    elim (lookup name requests) [
      | none ↦ rest
      | some request ↦ record {
        metrics_total = m.value +ℤ rest.metrics_total;
        requests_total = request +ℤ rest.requests_total;
        num_entries = suc rest.num_entries;
      }
    ]

-- Totals of which the two sums wrap.
abbrev wrapped : ℤ → ℤ → ℕ → Totals
wrapped a b n = record { metrics_total = wrap64 a; requests_total = wrap64 b; num_entries = n }

counted : ℤ → ℤ → Totals → Totals
counted value request t = record {
  metrics_total = value +ℤ t.metrics_total;
  requests_total = request +ℤ t.requests_total;
  num_entries = suc t.num_entries;
}

totals_wrapped :
    (requests : Dict ℤ) (metrics : PodMetricsInfo) (a b : ℤ) (n : ℕ)
    → let e = exact_totals requests metrics in
      foldl (add_entry requests) (wrapped a b n) metrics
      ≡ wrapped (a +ℤ e.metrics_total) (b +ℤ e.requests_total) (n + e.num_entries)
unfolding exact_totals ◌+64◌ counted
totals_wrapped requests [] a b n =
    let e : a +ℤ pos 0 ≡ a = omega int_laws in
    let e' : b +ℤ pos 0 ≡ b = omega int_laws in let k : n + 0 ≡ n = omega arith in rw (e, e', k)
totals_wrapped requests ((name, m) ∷ metrics) a b n =
    let rest = exact_totals requests metrics in
    let x = rest.metrics_total in
    let y = rest.requests_total in
    elim (Option-cases (lookup name requests)) [
      | inl absent ↦
          let same : add_entry requests (wrapped a b n) (name, m) ≡ wrapped a b n = ground arith in
          let none_counted : exact_totals requests ((name, m) ∷ metrics) ≡ rest = ground arith in
          rw (same, none_counted) (totals_wrapped requests metrics a b n)
      | inr (request, present) ↦
          let added : add_entry requests (wrapped a b n) (name, m)
              ≡ wrapped (a +ℤ m.value) (b +ℤ request) (suc n) =
            ground (arith, wrap64-add a m.value, wrap64-add b request) in
          let one_counted : exact_totals requests ((name, m) ∷ metrics)
              ≡ counted m.value request rest =
            ground arith in
          let e : a +ℤ m.value +ℤ x ≡ a +ℤ (m.value +ℤ x) = omega int_laws in
          let e' : b +ℤ request +ℤ y ≡ b +ℤ (request +ℤ y) = omega int_laws in
          let k : suc n + rest.num_entries ≡ n + suc rest.num_entries = omega arith in
          rw (added, one_counted, sym e, sym e', sym k)
            (totals_wrapped requests metrics (a +ℤ m.value) (b +ℤ request) (suc n))
    ]

totals_lem :
    (requests : Dict ℤ) (metrics : PodMetricsInfo)
    → let e = exact_totals requests metrics in
      totals requests metrics ≡ wrapped e.metrics_total e.requests_total e.num_entries
unfolding totals
totals_lem requests metrics =
    let e = exact_totals requests metrics in
    let start : wrapped (pos 0) (pos 0) 0 ≡ no_totals =
      rw (wrap64_self (pos 0) (omega arith, omega arith)) in
    let m : pos 0 +ℤ e.metrics_total ≡ e.metrics_total = omega int_laws in
    let r : pos 0 +ℤ e.requests_total ≡ e.requests_total = omega int_laws in
    let n : 0 + e.num_entries ≡ e.num_entries = omega arith in
    ap (λ t. foldl (add_entry requests) t metrics) (sym start)
    ∙ (totals_wrapped requests metrics (pos 0) (pos 0) 0 ∙ rw (m, r, n))

none_counted :
    (requests : Dict ℤ) (metrics : PodMetricsInfo)
    → (exact_totals requests metrics).num_entries ≡ 0
    → (exact_totals requests metrics).requests_total ≡ pos 0
unfolding exact_totals
none_counted requests [] h = refl
none_counted requests ((name, m) ∷ metrics) h = elim (Option-cases (lookup name requests)) [
  | inl absent ↦ ground (arith, none_counted requests metrics)
  | inr (request, present) ↦ absurd (ground arith)
]

hundredth : (x : ℤ) → IsInt64 (x *ℤ pos 100) → IsInt64 x
unfolding ◌*ℤ◌
hundredth (pos n) h = ground arith
hundredth (negsuc n) h = ground arith

module _ {F : Type 0} (fl : Float F) where
  open fl use {of_int, div}

  -- GetMetricUtilizationRatio panics when there is no metric. When there is one, and the exact sum
  -- of the values is an int64, whatever the partial sums, the average is the exact one and the ratio
  -- is its quotient by the target.
  pub metric_utilization_ratio_exact :
      (m : String × PodMetric) (ms : PodMetricsInfo) (target : ℤ)
      → IsInt64 (exact_sum (m ∷ ms))
      → let average = quot_ℤ (exact_sum (m ∷ ms)) (pos (length (m ∷ ms))) in
        (metric_utilization_ratio fl [] target ≡ panic divide_by_zero)
        × (metric_utilization_ratio fl (m ∷ ms) target
            ≡ ok (div (of_int average) (of_int target), average))
  unfolding metric_utilization_ratio
  metric_utilization_ratio_exact m ms target fits =
      let sum : sum_values (m ∷ ms) ≡ exact_sum (m ∷ ms) =
        sum_values_lem (m ∷ ms) ∙ wrap64_self (exact_sum (m ∷ ms)) fits in
      (refl, rw (sum, quot64_lem (exact_sum (m ∷ ms)) (length (m ∷ ms)) fits) (ground arith))

  -- GetResourceUtilizationRatio: if the exact totals over the pods that have a request fit, that of
  -- the values a hundredfold, and the requests come to more than 0, then the utilization is
  -- the exact percentage, the raw average the exact average, and the ratio the quotient of the
  -- utilization by the target.
  pub resource_utilization_ratio_exact :
      (metrics : PodMetricsInfo) (requests : Dict ℤ) (target : ℤ) (r : ℕ)
      → let e = exact_totals requests metrics in
        let percent = quot_ℤ (e.metrics_total *ℤ pos 100) (pos (suc r)) in
        e.requests_total ≡ pos (suc r)
        → IsInt64 e.requests_total
        → IsInt64 (e.metrics_total *ℤ pos 100)
        → IsInt32 percent
        → resource_utilization_ratio fl metrics requests target
          ≡ ok (
            div (of_int percent) (of_int target),
            percent,
            quot_ℤ e.metrics_total (pos e.num_entries),
          )
  unfolding resource_utilization_ratio mul64
  resource_utilization_ratio_exact metrics requests target r some_requests fits fits' small =
      let e = exact_totals requests metrics in
      let m = hundredth e.metrics_total fits' in
      rw
        (
          totals_lem requests metrics,
          wrap64_self e.metrics_total m,
          wrap64_self e.requests_total fits,
          some_requests,
          wrap64_self (e.metrics_total *ℤ pos 100) fits',
          quot64_lem (e.metrics_total *ℤ pos 100) (suc r) fits',
          quot64_lem e.metrics_total e.num_entries m,
        )
        (ground (
          arith,
          wrap32_self (quot_ℤ (e.metrics_total *ℤ pos 100) (pos (suc r))) small,
          none_counted requests metrics,
        ))
