-- ===== src/Daofa/Calculate.antt =====
-- `ZaohuaHandle.calculate` of pkg/zaohua/daofa/zaohua.go: the greatest number that a metric asks
-- for, kept between the two limits of the spec.
pub mod Greatest
pub mod Total
pub mod Elected
pub mod Unique
pub mod Values
use sunwukong.Base.{
  String, ℕ, zero, suc, Bool, Option, none, some, List, [], ◌∷◌, str_eq, Error, unsupported, Panic,
  Result, ok, err, panic, ◌>>=◌, deref, if◌then◌else◌,
}
use sunwukong.Base.Int.{ℤ, pos, ltb_ℤ}
use sunwukong.Base.Words.{wrap32}
use sunwukong.Float.{Float}
use sunwukong.Kube.Time.{Time}
use sunwukong.Kube.Autoscaling.{Selector, MetricSpec, Scale}
use sunwukong.Houmao.{Houmao}
use sunwukong.Daofa.Cluster.{CalculateHandle}
use sunwukong.Daofa.Replicas.Resource.{replicas_with_resource, replicas_with_container_resource}
use sunwukong.Daofa.Replicas.Pods.{replicas_with_pods}
use sunwukong.Daofa.Replicas.Object.{replicas_with_object}
use sunwukong.Daofa.Replicas.External.{replicas_with_external}

-- The results of the loop so far.
pub record Choice : Type 0 where
  pub replicas : ℤ
  pub metric_index : ℤ
  pub metric_type : String
  pub metric_name : String

-- The name of a metric, as each case of the switch reads it; that of a pods metric is read from
-- its container resource.
unfoldable pub name_of : MetricSpec → Result String
name_of metric =
    if str_eq metric.type "Resource"
    then (do source ← deref metric.resource; ok source.name)
    else if str_eq metric.type "Object"
    then (do source ← deref metric.object; ok source.metric.name)
    else if str_eq metric.type "External"
    then (do source ← deref metric.external; ok source.metric.name)
    else (do source ← deref metric.container_resource; ok source.name)

-- The type that is recorded: a pods metric goes by "ContainerResource".
unfoldable pub type_of : MetricSpec → String
type_of metric = if str_eq metric.type "Pods" then "ContainerResource" else metric.type

-- A case of the switch, given the answer of the calculation: an error is passed over.
unfoldable pub consider : ℕ → MetricSpec → Result (ℤ × Time) → Choice → Result Choice
consider index metric (err e) choice = ok choice
consider index metric (panic p) choice = panic p
consider index metric (ok (n, t)) choice =
    if ltb_ℤ choice.replicas n
    then (do
      name ← name_of metric
      ok (record {
        replicas = n;
        metric_index = wrap32 (pos index);
        metric_type = type_of metric;
        metric_name = name;
      }))
    else ok choice

-- The greatest number is cut to `[*min, max]`; `min` is read only if `max` does not cut.
unfoldable pub clamp : ℤ → Option ℤ → ℤ → Result ℤ
clamp desired min_replicas max_replicas =
    if ltb_ℤ max_replicas desired
    then ok max_replicas
    else (do m ← deref min_replicas; ok (if ltb_ℤ desired m then m else desired))

module _ {F : Type 0} (fl : Float F) (c : CalculateHandle F) where
  -- The calculation of a metric's type; `none` for a type that is not supported.
  unfoldable pub answer : String → Selector → ℤ → MetricSpec → Option (Result (ℤ × Time))
  answer namespace selector current metric =
      if str_eq metric.type "ContainerResource"
      then some (replicas_with_container_resource fl c namespace metric selector current)
      else if str_eq metric.type "Resource"
      then some (replicas_with_resource fl c namespace selector metric current)
      else if str_eq metric.type "Pods"
      then some (replicas_with_pods fl c namespace selector metric current)
      else if str_eq metric.type "Object"
      then some (replicas_with_object fl c namespace selector metric current)
      else if str_eq metric.type "External"
      then some (replicas_with_external fl c namespace metric selector current)
      else none

  unfoldable pub calculate_loop :
      String → Selector → ℤ → ℕ → List MetricSpec → Choice → Result Choice
  calculate_loop namespace selector current index [] choice = ok choice
  calculate_loop namespace selector current index (metric ∷ metrics) choice =
      let rest = calculate_loop namespace selector current (suc index) metrics in
      elim (answer namespace selector current metric) [
        | none ↦ err (unsupported metric.type)
        | some a ↦ consider index metric a choice >>= rest
      ]

  -- `parse` is `labels.Parse`.
  unfoldable pub calculate : (String → Result Selector) → Houmao → Scale → Result Choice
  calculate parse object scale = do
    selector ← parse scale.selector
    let current = scale.status_replicas
    let start : Choice = record {
      replicas = current;
      metric_index = pos 0;
      metric_type = "";
      metric_name = "";
    }
    best ← calculate_loop object.namespace selector current 0 object.spec.metrics start
    n ← clamp best.replicas object.spec.min_replicas object.spec.max_replicas
    ok (record best { replicas = n })
