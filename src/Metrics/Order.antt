-- ===== src/Metrics/Order.antt =====
-- Go visits a map in no fixed order; the averages over a metric do not depend on it.
use mathlib.Core.Logic.{∥∥₁_elim}
use mathlib.Core.List.{Perm, Permᴰ, foldl}
use sunwukong.Base.{String, suc, ◌≡◌, refl, ◌∙◌, ap, List, length, arith, Option-cases, inl, inr}
use sunwukong.Base.Int.{ℤ, pos}
use sunwukong.Base.Words.{+64_right_comm}
use sunwukong.Base.Dict.{Dict, lookup}
use sunwukong.Float.{Float}
use sunwukong.Metrics.Api.{PodMetric, PodMetricsInfo}
use sunwukong.Metrics.Utilization.{
  Totals, add_entry, totals, no_totals, sum_values, add_value, resource_utilization_ratio,
  metric_utilization_ratio,
}

module _ {ℓ κ} {A : Type ℓ} {S : Type κ} (f : S → A → S)
    (comm : (s : S) (a b : A) → f (f s a) b ≡ f (f s b) a) where
  foldl-Permᴰ : {xs ys : List A} (s : S) → Permᴰ xs ys → foldl f s xs ≡ foldl f s ys
  foldl-Permᴰ s Permᴰ.nil = refl
  foldl-Permᴰ s (Permᴰ.cons {a} {b} {l₁} {l₂} e p) =
      ap (λ x. foldl f (f s x) l₁) e ∙ foldl-Permᴰ (f s b) p
  foldl-Permᴰ s (Permᴰ.swap {a} {b} {a'} {b'} {l} e e') =
      ap (λ t. foldl f t l) (comm s a b)
      ∙ ap (λ x. foldl f (f (f s x) a) l) e'
      ∙ ap (λ x. foldl f (f (f s a') x) l) e
  foldl-Permᴰ s (Permᴰ.trans p q) = foldl-Permᴰ s p ∙ foldl-Permᴰ s q

length-Permᴰ {ℓ} : {A : Type ℓ} {xs ys : List A} → Permᴰ xs ys → length xs ≡ length ys
length-Permᴰ Permᴰ.nil = refl
length-Permᴰ (Permᴰ.cons e p) = ap suc (length-Permᴰ p)
length-Permᴰ (Permᴰ.swap e e') = refl
length-Permᴰ (Permᴰ.trans p q) = length-Permᴰ p ∙ length-Permᴰ q

add_value_comm :
    (s : ℤ) (a b : String × PodMetric) → add_value (add_value s a) b ≡ add_value (add_value s b) a
add_value_comm s (i, m) (j, n) = +64_right_comm s m.value n.value

add_entry_comm :
    (requests : Dict ℤ) (s : Totals) (a b : String × PodMetric)
    → add_entry requests (add_entry requests s a) b ≡ add_entry requests (add_entry requests s b) a
add_entry_comm requests s (i, m) (j, n) = elim (Option-cases (lookup i requests)) [
  | inl e ↦ ground arith
  | inr (x, e) ↦ elim (Option-cases (lookup j requests)) [
    | inl e' ↦ ground arith
    | inr (y, e') ↦
        ground (
          arith,
          +64_right_comm s.metrics_total m.value n.value,
          +64_right_comm s.requests_total x y,
        )
  ]
]

-- Go ranges over a map in an order of its own choosing: the two ratios, averages and failures are
-- the same for every order of the entries.
pub ratios-Perm :
    {F : Type 0} (fl : Float F) {metrics metrics' : PodMetricsInfo} (requests : Dict ℤ) (target : ℤ)
    → Perm metrics metrics'
    → (resource_utilization_ratio fl metrics requests target
        ≡ resource_utilization_ratio fl metrics' requests target)
      × (metric_utilization_ratio fl metrics target ≡ metric_utilization_ratio fl metrics' target)
unfolding resource_utilization_ratio metric_utilization_ratio totals sum_values
ratios-Perm fl {metrics} {metrics'} requests target p =
    let same : totals requests metrics ≡ totals requests metrics' =
      ∥∥₁_elim p (hlevel) (foldl-Permᴰ (add_entry requests) (add_entry_comm requests) no_totals) in
    let sum : sum_values metrics ≡ sum_values metrics' =
      ∥∥₁_elim p (hlevel) (foldl-Permᴰ add_value add_value_comm (pos 0)) in
    let len : length metrics ≡ length metrics' = ∥∥₁_elim p (hlevel) length-Permᴰ in
    (rw same, rw (sum, len))
