-- ===== src/Daofa/Calculate/Values.antt =====
-- What `calculate` of pkg/zaohua/daofa/zaohua.go makes of object metrics with plain values, whose calculation
-- is `getReplicasWithObjectSourceType` of pkg/zaohua/daofa/replica_calculator.go.
use mathlib.Core.Path.{subst}
use sunwukong.Base.{String, ◌≡◌, inl, inr, some, All, arith, Result, ok}
use sunwukong.Base.Int.{ℤ, pos, ◌≤ℤ◌, ◌<ℤ◌}
use sunwukong.Float.{Float}
use sunwukong.Kube.Autoscaling.{Selector, MetricSpec, Scale, ObjectMetricSource}
use sunwukong.Houmao.{Houmao}
use sunwukong.Daofa.Cluster.{CalculateHandle}
use sunwukong.Daofa.Replicas.Object.{replicas_with_object}
use sunwukong.Daofa.Replicas.Outcomes.{replicas_with_object_zero}
use sunwukong.Daofa.Calculate.{Choice, answer, calculate}
use sunwukong.Daofa.Calculate.Greatest.{IsCut, clamp-IsCut}
use sunwukong.Daofa.Calculate.Elected.{Asks, calculate_elects}
use sunwukong.Daofa.Calculate.Unique.{All-middle}

-- A metric of an object, with a plain value for its target.
abbrev pub IsPlainValue : MetricSpec → Type 0
IsPlainValue metric =
    (metric.type ≡ "Object")
    × (source : ObjectMetricSource) × (metric.object ≡ some source)
    × (source.target.type ≡ "Value")

module _ {F : Type 0} (fl : Float F) (c : CalculateHandle F) where
  Asks-zero :
      (namespace : String) (selector : Selector) (current : ℤ) (metric : MetricSpec) (n : ℤ)
      → IsPlainValue metric
      → Asks fl c namespace selector current metric n
      → n ≡ pos 0
  unfolding answer replicas_with_object
  Asks-zero namespace selector current metric n (type, source, has, value) (t, asked) =
      let object : some (replicas_with_object fl c namespace selector metric current)
          ≡ some (ok (n, t)) =
        rw type at asked in
      replicas_with_object_zero fl c namespace selector metric current source {n = n} {t = t} has
        value (cc)

  -- If every metric is one of an object with a plain value, and the scale does not run a negative
  -- number of replicas, then, whatever the values are, `calculate` returns nothing but the current
  -- number, cut to the limits, and names no metric: none of them ever asks for more.
  pub calculate_plain_values :
      (parse : String → Result Selector) (object : Houmao) (scale : Scale) {r : Choice}
      → All IsPlainValue object.spec.metrics
      → pos 0 ≤ℤ scale.status_replicas
      → calculate fl c parse object scale ≡ ok r
      → IsCut scale.status_replicas object.spec.min_replicas object.spec.max_replicas r.replicas
        × (r.metric_index ≡ pos 0)
        × (r.metric_type ≡ "")
        × (r.metric_name ≡ "")
  calculate_plain_values parse object scale {r} plain some_run h =
      let (selector, n, _, elected, cut) = calculate_elects fl c parse object scale h in
      elim elected.first [
        | inl (number, index, type, name) ↦ (
          clamp-IsCut scale.status_replicas object.spec.min_replicas object.spec.max_replicas
              (rw number at cut),
          index,
          type,
          name,
        )
        | inr first ↦
            let value =
              All-middle IsPlainValue first.before first.after
                (subst (All IsPlainValue) first.split plain) in
            let zero =
              Asks-zero object.namespace selector scale.status_replicas first.metric n value
                first.asks in
            absurd (
              let more = subst (λ k. scale.status_replicas <ℤ k) zero first.more in
              omega (arith, some_run))
      ]
