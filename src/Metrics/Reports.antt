-- ===== src/Metrics/Reports.antt =====
-- What one item of the answer of the metrics API of pods reports, for getPodMetrics and
-- getContainerMetrics of pkg/zaohua/daofa/metrics/rest_metrics_client.go.
use sunwukong.Base.{
  ap, sym, String, ◌≡◌, refl, ◌∙◌, inl, inr, Option, none, some, List, [], ◌∷◌, arith, str_eq,
  if◌then◌else◌, Option-cases, Bool-cases, ◌⊎◌, eq_iff,
}
use sunwukong.Base.Int.{ℤ, pos, ◌+ℤ◌, int_laws}
use sunwukong.Base.Words.{◌+64◌, wrap64, wrap64-add, wrap64_self}
use sunwukong.Base.Dict.{lookup}
use sunwukong.Kube.Pods.{ContainerMetrics, PodMetrics}
use sunwukong.Metrics.Client.{sum_usage, find_container, pod_usage}

-- The values of a resource in the containers, unless one of them lacks it.
abbrev pub values_of : String → List ContainerMetrics → Option (List ℤ)
values_of resource [] = some []
values_of resource (c ∷ cs) = elim (lookup resource c.usage) [
  | none ↦ none
  | some q ↦ elim (values_of resource cs) [
    | none ↦ none
    | some values ↦ some (q.milli_value ∷ values)
  ]
]

abbrev pub exact_total : List ℤ → ℤ
exact_total [] = pos 0
exact_total (v ∷ vs) = v +ℤ exact_total vs

abbrev pub wrapped_total : ℤ → Option (List ℤ) → Option ℤ
wrapped_total start none = none
wrapped_total start (some values) = some (wrap64 (start +ℤ exact_total values))

-- What an item with these containers reports of a resource: the exact sum over all of them, as an
-- int64, and nothing if there is no container or one of them lacks the resource.
abbrev pub report_of : String → List ContainerMetrics → Option ℤ
report_of resource [] = none
report_of resource (c ∷ cs) = wrapped_total (pos 0) (values_of resource (c ∷ cs))

sum_usage_lem :
    (resource : String) (cs : List ContainerMetrics) (start : ℤ)
    → sum_usage resource cs (wrap64 start) ≡ wrapped_total start (values_of resource cs)
unfolding sum_usage ◌+64◌
sum_usage_lem resource [] start = let same : start +ℤ pos 0 ≡ start = omega int_laws in rw same refl
sum_usage_lem resource (c ∷ cs) start = elim (Option-cases (lookup resource c.usage)) [
  | inl e ↦ ground arith
  | inr (q, e) ↦
      let next = wrap64-add start q.milli_value in
      let rest = sum_usage_lem resource cs (start +ℤ q.milli_value) in
      elim (Option-cases (values_of resource cs)) [
        | inl none_left ↦ ground (arith, next, rest)
        | inr (values, found) ↦
            let same : (start +ℤ q.milli_value) +ℤ exact_total values
                ≡ start +ℤ (q.milli_value +ℤ exact_total values) =
              omega int_laws in
            ground (arith, next, rest, same)
      ]
]

pub pod_usage_lem :
    (resource : String) (cs : List ContainerMetrics) → pod_usage resource cs ≡ report_of resource cs
unfolding pod_usage
pod_usage_lem resource [] = refl
pod_usage_lem resource (c ∷ cs) =
    let start : wrap64 (pos 0) ≡ pos 0 = wrap64_self (pos 0) (omega arith, omega arith) in
    ap (sum_usage resource (c ∷ cs)) (sym start) ∙ sum_usage_lem resource (c ∷ cs) (pos 0)

-- One of the containers goes by the name.
abbrev pub IsNamed : String → List ContainerMetrics → Type 0
IsNamed name [] = ⊥
IsNamed name (c ∷ cs) = (c.name ≡ name) ⊎ IsNamed name cs

abbrev pub HasContainer : String → PodMetrics → Type 0
HasContainer name m = IsNamed name m.containers

-- What the containers of the name report of a resource, each on its own.
abbrev pub usages_of : String → String → List ContainerMetrics → List (Option ℤ)
usages_of resource name [] = []
usages_of resource name (c ∷ cs) =
    let rest = usages_of resource name cs in
    if str_eq c.name name
    then elim (lookup resource c.usage) [ none ↦ none | some q ↦ some q.milli_value ] ∷ rest
    else rest

-- What an item reports of a resource of the container: what the first of the name does.
abbrev pub container_usage : String → String → PodMetrics → Option ℤ
container_usage resource name m = elim (usages_of resource name m.containers) [
  | [] ↦ none
  | usage ∷ rest ↦ usage
]

pub find_container-none :
    (name : String) (cs : List ContainerMetrics) → find_container name cs ≡ none → ¬ IsNamed name cs
unfolding find_container
find_container-none name [] h named = named
find_container-none name (c ∷ cs) h (inl e) = ground (arith, eq_iff c.name name)
find_container-none name (c ∷ cs) h (inr named) = elim (Bool-cases (str_eq c.name name)) [
  | inl same ↦ ground arith
  | inr differs ↦ find_container-none name cs (ground arith) named
]

-- The container that is found goes by the name, and is the first that does.
pub find_container-some :
    (resource name : String) (cs : List ContainerMetrics) {c : ContainerMetrics}
    → find_container name cs ≡ some c
    → IsNamed name cs
      × ((rest : List (Option ℤ)) × (usages_of resource name cs
            ≡ elim (lookup resource c.usage) [ none ↦ none | some q ↦ some q.milli_value ] ∷ rest))
unfolding find_container
find_container-some resource name [] h = absurd (ground arith)
find_container-some resource name (d ∷ cs) {c} h = elim (Bool-cases (str_eq d.name name)) [
  | inl same ↦
      let found : d ≡ c = ground arith in
      (
        inl (ground (arith, eq_iff d.name name)),
        (usages_of resource name cs, rw (same, found) refl),
      )
  | inr differs ↦
      let (named, (rest, e)) = find_container-some resource name cs {c = c} (ground arith) in
      (inr named, (rest, rw differs e))
]

pub container_usage_found :
    (resource name : String) (m : PodMetrics) {c : ContainerMetrics}
    → find_container name m.containers ≡ some c
    → container_usage resource name m
      ≡ elim (lookup resource c.usage) [ none ↦ none | some q ↦ some q.milli_value ]
container_usage_found resource name m e =
    let (_, (rest, first)) = find_container-some resource name m.containers e in
    ground (arith, first)
