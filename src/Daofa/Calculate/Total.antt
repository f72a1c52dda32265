-- ===== src/Daofa/Calculate/Total.antt =====
-- When `calculate` of pkg/zaohua/daofa/zaohua.go does not panic.
use sunwukong.Base.{
  String, ℕ, suc, ◌≡◌, refl, inl, inr, some, List, [], ◌∷◌, All, arith, NeverPanics, IsOk,
  >>=-NeverPanics, >>=-IsOk, Result, ok, err, panic, Bool-cases,
}
use sunwukong.Base.Int.{ℤ, pos, ltb_ℤ}
use sunwukong.Base.Words.{wrap32}
use sunwukong.Float.{Float}
use sunwukong.Kube.Time.{Time}
use sunwukong.Kube.Pods.{Quantity}
use sunwukong.Kube.Autoscaling.{
  Selector, MetricSpec, ObjectMetricSource, ResourceMetricSource, ContainerResourceMetricSource,
  Scale,
}
use sunwukong.Houmao.{Houmao}
use sunwukong.Daofa.Cluster.{CalculateHandle}
use sunwukong.Daofa.Replicas.Total.{
  IsSafe, HasTarget, replicas_with_resource-NeverPanics,
  replicas_with_container_resource-NeverPanics, replicas_with_object-NeverPanics,
}
use sunwukong.Daofa.Calculate.Greatest.{start_of}
use sunwukong.Daofa.Calculate.{
  Choice, name_of, type_of, consider, clamp, answer, calculate_loop, calculate,
}

-- A metric of a type that the calculation serves without reading through a nil pointer: there is
-- no such metric of the types Pods and External.
pub data IsServed (metric : MetricSpec) : Type 0 where
  by_resource :
      (source : ResourceMetricSource) (q : Quantity)
      → metric.type ≡ "Resource"
      → metric.resource ≡ some source
      → source.target.average_value ≡ some q
      → IsServed metric
  by_container_resource :
      (source : ContainerResourceMetricSource) (q : Quantity)
      → metric.type ≡ "ContainerResource"
      → metric.container_resource ≡ some source
      → source.target.average_value ≡ some q
      → IsServed metric
  by_object :
      (source : ObjectMetricSource)
      → metric.type ≡ "Object"
      → metric.object ≡ some source
      → HasTarget source
      → IsServed metric

name_of-IsOk : (metric : MetricSpec) → IsServed metric → IsOk (name_of metric)
unfolding name_of
name_of-IsOk metric (IsServed.by_resource source q type has average) =
    (source.name, rw (type, has) refl)
name_of-IsOk metric (IsServed.by_container_resource source q type has average) =
    (source.name, rw (type, has) refl)
name_of-IsOk metric (IsServed.by_object source type has target) =
    (source.metric.name, rw (type, has) refl)

consider-IsOk :
    (index : ℕ) (metric : MetricSpec) (a : Result (ℤ × Time)) (choice : Choice)
    → IsServed metric
    → NeverPanics a
    → IsOk (consider index metric a choice)
unfolding consider
consider-IsOk index metric (ok (n, t)) choice served calm =
    let (name, named) = name_of-IsOk metric served in
    let next : Choice = record {
      replicas = n;
      metric_index = wrap32 (pos index);
      metric_type = type_of metric;
      metric_name = name;
    } in
    elim (Bool-cases (ltb_ℤ choice.replicas n)) [
      | inl more ↦ (next, rw (more, named) refl)
      | inr less ↦ (choice, rw less refl)
    ]
consider-IsOk index metric (err e) choice served calm = (choice, refl)
consider-IsOk index metric (panic p) choice served calm = absurd (calm p refl)

module _ {F : Type 0} (fl : Float F) (c : CalculateHandle F) (safe : IsSafe c) where
  answer-IsServed :
      (namespace : String) (selector : Selector) (current : ℤ) (metric : MetricSpec)
      → IsServed metric
      → (a : Result (ℤ × Time)) × (answer fl c namespace selector current metric ≡ some a)
        × NeverPanics a
  unfolding answer
  answer-IsServed namespace selector current metric
        (IsServed.by_resource source q type has average) =
      (
        _,
        rw type refl,
        replicas_with_resource-NeverPanics c safe fl namespace selector metric current has average,
      )
  answer-IsServed namespace selector current metric
        (IsServed.by_container_resource source q type has average) =
      (
        _,
        rw type refl,
        replicas_with_container_resource-NeverPanics c safe fl namespace metric selector current has
            average,
      )
  answer-IsServed namespace selector current metric (IsServed.by_object source type has target) = (
    _,
    rw type refl,
    replicas_with_object-NeverPanics c safe fl namespace selector metric current has target,
  )

  calculate_loop-IsOk :
      (namespace : String) (selector : Selector) (current : ℤ) (index : ℕ)
      (metrics : List MetricSpec) (choice : Choice)
      → All IsServed metrics
      → IsOk (calculate_loop fl c namespace selector current index metrics choice)
  unfolding calculate_loop
  calculate_loop-IsOk namespace selector current index [] choice served = (choice, refl)
  calculate_loop-IsOk namespace selector current index (metric ∷ metrics) choice (here, rest) =
      let (a, e, calm) = answer-IsServed namespace selector current metric here in
      let (best, run) =
        >>=-IsOk (consider index metric a choice) _ (consider-IsOk index metric a choice here calm)
          (λ next _.
            calculate_loop-IsOk namespace selector current (suc index) metrics next rest) in
      (best, ground (arith, e, run))

  -- If the requests do not panic, nor does the parsing of the selector, every metric is served and
  -- the least number of the spec is set, then `calculate` does not panic.
  pub calculate-NeverPanics :
      (parse : String → Result Selector) (object : Houmao) (scale : Scale) {m : ℤ}
      → NeverPanics (parse scale.selector)
      → All IsServed object.spec.metrics
      → object.spec.min_replicas ≡ some m
      → NeverPanics (calculate fl c parse object scale)
  unfolding calculate clamp
  calculate-NeverPanics parse object scale {m} parsed served least =
      >>=-NeverPanics (parse scale.selector) _ parsed λ selector _.
        let (best, run) =
          calculate_loop-IsOk object.namespace selector scale.status_replicas 0 object.spec.metrics
            (start_of fl c scale) served in
        λ p. rw (run, least) (λ bad. ground arith)
