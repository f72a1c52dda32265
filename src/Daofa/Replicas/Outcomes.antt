-- ===== src/Daofa/Replicas/Outcomes.antt =====
-- How the calculations for pods, object and external metrics end.
use sunwukong.Base.{
  String, ◌≡◌, ◌≢◌, none, some, arith, eq_iff, Error, nil_dereference, Result, ok, err, panic,
}
use sunwukong.Base.Int.{ℤ, pos}
use sunwukong.Float.{Float}
use sunwukong.Kube.Time.{Time}
use sunwukong.Kube.Autoscaling.{Selector, MetricSpec, ObjectMetricSource}
use sunwukong.Daofa.Cluster.{CalculateHandle}
use sunwukong.Daofa.Replicas.Pods.{or_default, replicas_with_pods}
use sunwukong.Daofa.Replicas.Object.{object_replicas, replicas_with_object}
use sunwukong.Daofa.Replicas.External.{replicas_with_external}

module _ {F : Type 0} (fl : Float F) (c : CalculateHandle F) (namespace : String)
    (selector : Selector) (metric : MetricSpec) (current : ℤ) where
  object_replicas_zero :
      (source : ObjectMetricSource) {n : ℤ} {t : Time}
      → object_replicas fl c namespace source selector current ≡ ok (n, t)
      → n ≡ pos 0
  unfolding object_replicas
  object_replicas_zero source h = ground arith

  -- An object metric with a plain value never asks for any replicas: when the calculation returns,
  -- it returns 0, whatever the metric and the target are.
  pub replicas_with_object_zero :
      (source : ObjectMetricSource) {n : ℤ} {t : Time}
      → metric.object ≡ some source
      → source.target.type ≡ "Value"
      → replicas_with_object fl c namespace selector metric current ≡ ok (n, t)
      → n ≡ pos 0
  unfolding replicas_with_object
  replicas_with_object_zero source {n} {t} m v h =
      ground (arith, object_replicas_zero source {n = n} {t = t}, eq_iff source.target.type "Value")

  or_default-ne-err {ℓ} : {A : Type ℓ} (a : A) (r : Result A) (e : Error) → or_default a r ≢ err e
  or_default-ne-err a (ok x) e = λ bad. cc
  or_default-ne-err a (err x) e = λ bad. cc
  or_default-ne-err a (panic x) e = λ bad. cc

  -- The calculation for a pods metric never ends in an error: the errors of the API, of the
  -- selector and of the grouping all become an answer.
  pub replicas_with_pods-ne-err :
      (e : Error) → replicas_with_pods fl c namespace selector metric current ≢ err e
  unfolding replicas_with_pods
  replicas_with_pods-ne-err e = λ h. ground arith

  -- An external metric whose spec has no object source, as it should, makes the calculation panic.
  pub replicas_with_external-panic :
      metric.object ≡ none
      → replicas_with_external fl c namespace metric selector current ≡ panic nil_dereference
  unfolding replicas_with_external
  replicas_with_external-panic h = rw h
