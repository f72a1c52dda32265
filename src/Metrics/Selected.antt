-- ===== src/Metrics/Selected.antt =====
-- Which pods the metrics API's answer gives a metric.
use sunwukong.Base.{
  String, ◌≡◌, refl, ◌∙◌, inl, inr, Option, none, some, List, [], ◌∷◌, All, arith, str_eq,
  no_container_in_metrics, ok, err, if◌then◌else◌, Option-cases,
}
use sunwukong.Base.Int.{ℤ}
use sunwukong.Base.Dict.{lookup, insert, lookup-insert}
use sunwukong.Metrics.Reports.{
  report_of, pod_usage_lem, HasContainer, container_usage, find_container-none, find_container-some,
  container_usage_found,
}
use sunwukong.Kube.Pods.{PodMetrics}
use sunwukong.Metrics.Api.{PodMetric, PodMetricsInfo}
use sunwukong.Metrics.Client.{
  metric_of, find_container, container_metrics_loop, get_container_metrics, pod_usage,
  pod_metrics_loop, get_pod_metrics,
}

-- The metric of pod `k`: that of the last item of that name which reports one.
abbrev pub last_metric : (PodMetrics → Option ℤ) → String → List PodMetrics → Option PodMetric
last_metric report k [] = none
last_metric report k (m ∷ ms) = elim (last_metric report k ms) [
  | some found ↦ some found
  | none ↦
      if str_eq m.name k
      then (elim (report m) [ none ↦ none | some v ↦ some (metric_of m v) ])
      else none
]

abbrev pub or_else {ℓ} : {A : Type ℓ} → Option A → Option A → Option A
or_else (some a) o = some a
or_else none o = o

or_else-none {ℓ} : {A : Type ℓ} (o : Option A) → or_else o none ≡ o
or_else-none none = refl
or_else-none (some a) = refl

pod_metrics_loop_lem :
    (resource k : String) (raw : List PodMetrics) (res : PodMetricsInfo)
    → lookup k (pod_metrics_loop resource raw res)
      ≡ or_else (last_metric (λ m. report_of resource m.containers) k raw) (lookup k res)
unfolding pod_metrics_loop
pod_metrics_loop_lem resource k [] res = refl
pod_metrics_loop_lem resource k (m ∷ ms) res =
    let report = pod_usage_lem resource m.containers in
    elim (Option-cases (pod_usage resource m.containers)) [
      | inl e ↦ ground (arith, report, pod_metrics_loop_lem resource k ms res)
      | inr (v, e) ↦ ground (
        arith,
        report,
        lookup-insert m.name k (metric_of m v) res,
        pod_metrics_loop_lem resource k ms (insert m.name (metric_of m v) res),
      )
    ]

-- `getPodMetrics` gives a pod a metric exactly when an item of that name has a container and the
-- resource in each of them; the last such item counts, with its time and window, and the value is
-- the exact sum over its containers, wrapped once to an int64.
pub lookup-get_pod_metrics :
    (resource k : String) (raw : List PodMetrics)
    → lookup k (get_pod_metrics raw resource)
      ≡ last_metric (λ m. report_of resource m.containers) k raw
unfolding get_pod_metrics lookup
lookup-get_pod_metrics resource k raw = ground (arith, pod_metrics_loop_lem resource k raw [])

container_metrics_loop_lem :
    (resource name : String) (raw : List PodMetrics) (res : PodMetricsInfo)
    → All (HasContainer name) raw
    → (res' : PodMetricsInfo) × (container_metrics_loop resource name raw res ≡ ok res')
      × ((k : String)
          → lookup k res'
            ≡ or_else (last_metric (container_usage resource name) k raw) (lookup k res))
unfolding container_metrics_loop
container_metrics_loop_lem resource name [] res h = (res, refl, λ k. refl)
container_metrics_loop_lem resource name (m ∷ ms) res (h, hs) =
    elim (Option-cases (find_container name m.containers)) [
      | inl e ↦ absurd (find_container-none name m.containers e h)
      | inr (c, e) ↦
          let usage = container_usage_found resource name m e in
          elim (Option-cases (lookup resource c.usage)) [
            | inl e' ↦
                let (res', run, found) = container_metrics_loop_lem resource name ms res hs in
                (res', ground (arith, run), λ k. ground (arith, usage, found k))
            | inr (q, e') ↦
                let v = metric_of m q.milli_value in
                let (res', run, found) =
                  container_metrics_loop_lem resource name ms (insert m.name v res) hs in
                (
                  res',
                  ground (arith, run),
                  λ k. ground (arith, usage, found k, lookup-insert m.name k v res),
                )
          ]
    ]

container_metrics_loop_err :
    (resource name : String) (raw : List PodMetrics) (res : PodMetricsInfo)
    → ¬ All (HasContainer name) raw
    → container_metrics_loop resource name raw res ≡ err (no_container_in_metrics name)
unfolding container_metrics_loop
container_metrics_loop_err resource name [] res h = absurd (h tt)
container_metrics_loop_err resource name (m ∷ ms) res h =
    elim (Option-cases (find_container name m.containers)) [
      | inl e ↦ ground arith
      | inr (c, e) ↦
          let named = (find_container-some resource name m.containers e).0 in
          let rest : ¬ All (HasContainer name) ms = λ hs. h (named, hs) in
          elim (Option-cases (lookup resource c.usage)) [
            | inl e' ↦ ground (arith, container_metrics_loop_err resource name ms res rest)
            | inr (q, e') ↦
                let res' = insert m.name (metric_of m q.milli_value) res in
                ground (arith, container_metrics_loop_err resource name ms res' rest)
          ]
    ]

-- If every item has a container of the name, `getContainerMetrics` gives each pod what the last item
-- of its name reports that reports the resource for its first container of that name; if some item
-- has none, the call fails, whatever the others have.
pub get_container_metrics_lem :
    (resource name : String) (raw : List PodMetrics)
    → (All (HasContainer name) raw
        → (res : PodMetricsInfo) × (get_container_metrics raw resource name ≡ ok res)
          × ((k : String) → lookup k res ≡ last_metric (container_usage resource name) k raw))
      × (¬ All (HasContainer name) raw
          → get_container_metrics raw resource name ≡ err (no_container_in_metrics name))
unfolding get_container_metrics lookup
get_container_metrics_lem resource name raw = (
  λ h.
      let (res, run, found) = container_metrics_loop_lem resource name raw [] h in
      (res, run, λ k. found k ∙ or_else-none _),
  container_metrics_loop_err resource name raw [],
)
