-- ===== src/Metrics/Failures.antt =====
-- The failures of the averages of pkg/zaohua/daofa/metrics/utilization.go.
use mathlib.Core.List.{foldl}
use sunwukong.Base.{
  ◌≡◌, refl, ◌≢◌, ◌↔◌, inl, inr, [], ◌∷◌, arith, Panic, divide_by_zero, no_requests, err, panic,
  Option-cases,
}
use sunwukong.Base.Int.{ℤ, pos}
use sunwukong.Base.Dict.{Dict, lookup}
use sunwukong.Float.{Float}
use sunwukong.Metrics.Api.{PodMetricsInfo}
use sunwukong.Metrics.Utilization.{
  Totals, add_entry, totals, no_totals, resource_utilization_ratio, metric_utilization_ratio,
}

-- The average over no metric panics by a division by 0, and over any other it does not.
pub metric_utilization_ratio_panic :
    {F : Type 0} (fl : Float F) (metrics : PodMetricsInfo) (target : ℤ) (p : Panic)
    → (metric_utilization_ratio fl metrics target ≡ panic p)
      ↔ ((metrics ≡ []) × (p ≡ divide_by_zero))
unfolding metric_utilization_ratio
metric_utilization_ratio_panic fl [] target p = ground arith
metric_utilization_ratio_panic fl (m ∷ ms) target p = ground arith

-- Without an entry there is no request.
abbrev IsCounted : Totals → Type 0
IsCounted t = t.num_entries ≡ 0 → t.requests_total ≡ pos 0

foldl-add_entry-IsCounted :
    (requests : Dict ℤ) (metrics : PodMetricsInfo) (t : Totals)
    → IsCounted t
    → IsCounted (foldl (add_entry requests) t metrics)
foldl-add_entry-IsCounted requests [] t h = h
foldl-add_entry-IsCounted requests ((i, m) ∷ ms) t h =
    foldl-add_entry-IsCounted requests ms (add_entry requests t (i, m))
      (elim (Option-cases (lookup i requests)) [
        | inl e ↦ λ k. ground (arith, h)
        | inr (x, e) ↦ λ k. ground arith
      ])

-- The utilization of a resource never panics: where the number of pods that are counted could be
-- 0, or the sum of the requests is, the call has failed with an error; it fails in no other case.
pub resource_utilization_ratio_safe :
    {F : Type 0} (fl : Float F) (metrics : PodMetricsInfo) (requests : Dict ℤ) (target : ℤ)
    → ((p : Panic) → resource_utilization_ratio fl metrics requests target ≢ panic p)
      × ((resource_utilization_ratio fl metrics requests target ≡ err no_requests)
          ↔ ((totals requests metrics).requests_total ≡ pos 0))
unfolding resource_utilization_ratio
resource_utilization_ratio_safe fl metrics requests target =
    let counted : IsCounted (totals requests metrics) =
      unfold totals in foldl-add_entry-IsCounted requests metrics no_totals (λ _. refl) in
    (λ p h. ground (arith, counted), (λ h. ground (arith, counted), λ h. ground arith))
