-- ===== src/Daofa/Groups.antt =====
-- `groupPods` of pkg/zaohua/daofa/replica_calculator.go.
pub mod Partition
use sunwukong.Base.{
  String, ℕ, zero, suc, Bool, true, false, not, ◌&&◌, ◌||◌, Option, none, some, List, [], ◌∷◌,
  str_eq, if◌then◌else◌,
}
use sunwukong.Base.Dict.{lookup}
use sunwukong.Base.StringSet.{insert}
use sunwukong.Kube.Time.{Time, Duration, add, after, before}
use sunwukong.Kube.Pods.{
  Pod, PodPhase, pending, failed, PodCondition, ConditionStatus, condition_false, condition_true,
  condition_unknown,
}
use sunwukong.Metrics.Api.{PodMetric, PodMetricsInfo}

pub record Groups : Type 0 where
  pub ready_pod_count : ℕ
  pub unready_pods : List String
  pub missing_pods : List String
  pub ignored_pods : List String

pub data Class : Type 0 where
  ready unready missing ignored : Class

-- The two periods of a `CalculateHandle`, and `podutil.GetPodCondition` of k8s.io/kubernetes.
pub record GroupRules : Type 0 where
  pub cpu_initialization_period : Duration
  pub initial_readiness_delay : Duration
  pub get_pod_condition : Pod → String → Option PodCondition

abbrev pub is_failed : PodPhase → Bool
is_failed failed = true
is_failed _ = false

abbrev pub is_pending : PodPhase → Bool
is_pending pending = true
is_pending _ = false

abbrev pub is_false : ConditionStatus → Bool
is_false condition_false = true
is_false _ = false

abbrev pub is_set {ℓ} : {A : Type ℓ} → Option A → Bool
is_set none = false
is_set (some a) = true

-- The part for the resource "cpu".
is_unready : GroupRules → Time → Pod → PodMetric → Bool
is_unready rules now pod metric = elim (rules.get_pod_condition pod "Ready") [
  | none ↦ true
  | some condition ↦ elim pod.start_time [
    | none ↦ true
    | some start ↦
        if after (add start rules.cpu_initialization_period) now
        then is_false condition.status
          || before metric.timestamp (add condition.last_transition_time metric.window)
        else is_false condition.status
          && after (add start rules.initial_readiness_delay) condition.last_transition_time
  ]
]

-- The body of the loop, up to the group that a pod ends in.
unfoldable pub classify : GroupRules → String → Time → PodMetricsInfo → Pod → Class
unfolding is_unready
classify rules resource now metrics pod =
    if is_set pod.deletion_timestamp || not (is_failed pod.phase)
    then ignored
    else if is_pending pod.phase
    then unready
    else elim (lookup pod.name metrics) [
      | none ↦ missing
      | some metric ↦
          if str_eq resource "cpu" && is_unready rules now pod metric then unready else ready
    ]

unfoldable pub put : Class → String → Groups → Groups
put ready name g = record g { ready_pod_count = suc g.ready_pod_count }
put unready name g = record g { unready_pods = insert name g.unready_pods }
put missing name g = record g { missing_pods = insert name g.missing_pods }
put ignored name g = record g { ignored_pods = insert name g.ignored_pods }

-- Each pod is examined at a reading of the clock of its own.
unfoldable pub group_loop :
    GroupRules → String → (ℕ → Time) → PodMetricsInfo → List Pod → Groups → Groups
group_loop rules resource clock metrics [] g = g
group_loop rules resource clock metrics (pod ∷ pods) g =
    group_loop rules resource (λ i. clock (suc i)) metrics pods
      (put (classify rules resource (clock 0) metrics pod) pod.name g)

abbrev pub no_groups : Groups
no_groups = record { ready_pod_count = 0; unready_pods = []; missing_pods = []; ignored_pods = [] }

unfoldable pub group_pods : GroupRules → String → (ℕ → Time) → PodMetricsInfo → List Pod → Groups
unfolding group_loop classify put
group_pods rules resource clock metrics pods =
    group_loop rules resource clock metrics pods no_groups
