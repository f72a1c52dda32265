-- ===== src/Daofa/Behavior/Rates.antt =====
-- The rate limits of pkg/zaohua/daofa/behavor_processor.go: the loops over the policies. The readings of
-- the clock are a stream.
use sunwukong.Base.{
  String, ℕ, suc, Option, none, some, List, [], ◌∷◌, str_eq, Result, ok, panic, nil_function, ◌>>=◌,
  deref, if◌then◌else◌,
}
use sunwukong.Base.Int.{ℤ, pos, ltb_ℤ}
use sunwukong.Base.Words.{◌+32◌, ◌-32◌, max_int32, min_int32}
use sunwukong.Float.{Float}
use sunwukong.Kube.Time.{Time, seconds, back, after}
use sunwukong.Kube.Autoscaling.{ScalingPolicy, ScalingRules}
use sunwukong.Daofa.Records.{ScaleEvent, min}

-- The loop of `getReplicasChangePerScalePolicyPeriod`.
unfoldable pub sum_changes : Time → List ScaleEvent → ℤ → ℤ
sum_changes cutoff [] replicas = replicas
sum_changes cutoff (e ∷ events) replicas =
    sum_changes cutoff events
      (if after e.timestamp cutoff then replicas +32 e.replica_change else replicas)

unfoldable pub replicas_change : Time → ℤ → List ScaleEvent → ℤ
unfolding sum_changes
replicas_change now period_seconds events =
    sum_changes (back now (seconds period_seconds)) events (pos 0)

-- Calling a function variable that was never assigned panics.
abbrev pub call : Option (ℤ → ℤ → ℤ) → ℤ → ℤ → Result ℤ
call none a b = panic nil_function
call (some f) a b = ok (f a b)

module _ {F : Type 0} (fl : Float F) where
  open fl use {of_int, add, mul, div, ceil, to_int32}

  -- `int32(math.Ceil(float64(start) * (1 + float64(value)/100)))`
  unfoldable pub percent_of : ℤ → ℤ → ℤ
  percent_of start value =
      to_int32
        (ceil (mul (of_int start) (add (of_int (pos 1)) (div (of_int value) (of_int (pos 100))))))

  -- A policy of neither type leaves what the round before proposed.
  unfoldable pub propose : ScalingPolicy → ℤ → ℤ → ℤ
  unfolding percent_of
  propose policy start proposed =
      if str_eq policy.type "Pods"
      then start +32 policy.value
      else if str_eq policy.type "Percent"
      then percent_of start policy.value
      else proposed

  -- The loop over the policies, which `calculateScaleUpLimitWithScalingRules` and
  -- `calculateScaleDownLimitWithScalingRules` share word for word.
  unfoldable pub limit_loop :
      Option (ℤ → ℤ → ℤ) → (ℕ → Time) → ℤ → List ScaleEvent → List ScalingPolicy → ℤ → ℤ → Result ℤ
  unfolding replicas_change propose
  limit_loop select clock current events [] proposed limit = ok limit
  limit_loop select clock current events (policy ∷ policies) proposed limit =
      let start = current -32 replicas_change (clock 0) policy.period_seconds events in
      let proposed' = propose policy start proposed in
      let rest = limit_loop select (λ i. clock (suc i)) current events policies proposed' in
      call select limit proposed' >>= rest

  unfoldable pub select_up :
      (ℕ → Time) → ℤ → List ScaleEvent → List ScalingPolicy → String → Result ℤ
  unfolding limit_loop
  select_up clock current events policies policy = do
    let is_min = str_eq policy "Min"
    let select : Option (ℤ → ℤ → ℤ) = if is_min then some min else none
    let start = if is_min then min_int32 else max_int32
    limit ← limit_loop select clock current events policies (pos 0) start
    ok (if ltb_ℤ limit current then current else limit)

  unfoldable pub scale_up_limit : (ℕ → Time) → ℤ → List ScaleEvent → Option ScalingRules → Result ℤ
  unfolding select_up
  scale_up_limit clock current events rules = do
    up ← deref rules
    policy ← deref up.select_policy
    if str_eq policy "Disabled"
        then ok current
        else select_up clock current events up.policies policy

  unfoldable pub select_down :
      (ℕ → Time) → ℤ → List ScaleEvent → List ScalingPolicy → String → Result ℤ
  unfolding limit_loop
  select_down clock current events policies policy = do
    let is_min = str_eq policy "Min"
    let select : Option (ℤ → ℤ → ℤ) = if is_min then some min else none
    let start = if is_min then max_int32 else min_int32
    limit ← limit_loop select clock current events policies (pos 0) start
    ok (if ltb_ℤ current limit then current else limit)

  unfoldable pub scale_down_limit :
      (ℕ → Time) → ℤ → List ScaleEvent → Option ScalingRules → Result ℤ
  unfolding select_down
  scale_down_limit clock current events rules = do
    down ← deref rules
    policy ← deref down.select_policy
    if str_eq policy "Disabled"
        then ok current
        else select_down clock current events down.policies policy
