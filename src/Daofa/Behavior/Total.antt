-- ===== src/Daofa/Behavior/Total.antt =====
-- When the revision of pkg/zaohua/daofa/behavor_processor.go returns.
use sunwukong.Base.{
  ℕ, suc, ◌≡◌, refl, ◌⊎◌, inl, inr, false, some, List, [], ◌∷◌, arith, IsOk, >>=-IsOk, Bool-cases,
  if◌then◌else◌,
}
use sunwukong.Base.Int.{ℤ, pos, ltb_ℤ}
use sunwukong.Base.Words.{max_int32}
use sunwukong.Float.{Float}
use sunwukong.Kube.Time.{Time}
use sunwukong.Kube.Autoscaling.{ScalingPolicy, ScalingRules, Behavior}
use sunwukong.Daofa.Records.{RecommendationRecord, ScaleEvent, min}
use sunwukong.Daofa.Behavior.{
  ReviseInfo, limit_loop, select_down, scale_down_limit, convert_desired_replicas,
  revise_with_behavor,
}
use sunwukong.Daofa.Behavior.Window.{stabilization_least}
use sunwukong.Daofa.Behavior.Revise.{info_of}

-- A behavior with both rules and their windows, and with one of the two select policies that do not
-- call the function that was never assigned.
pub record IsRuled (b : Behavior) : Type 0 where
  pub up : ScalingRules
  pub down : ScalingRules
  pub has_up : b.scale_up ≡ some up
  pub has_down : b.scale_down ≡ some down
  pub up_window : ℤ
  pub down_window : ℤ
  pub has_up_window : up.stabilization_window_seconds ≡ some up_window
  pub has_down_window : down.stabilization_window_seconds ≡ some down_window
  pub policy : (up.select_policy ≡ some "Min") ⊎ (up.select_policy ≡ some "Disabled")

module _ {F : Type 0} (fl : Float F) where
  limit_loop-IsOk :
      (clock : ℕ → Time) (current : ℤ) (events : List ScaleEvent) (policies : List ScalingPolicy)
      (proposed limit : ℤ)
      → IsOk (limit_loop fl (some min) clock current events policies proposed limit)
  unfolding limit_loop
  limit_loop-IsOk clock current events [] proposed limit = (limit, refl)
  limit_loop-IsOk clock current events (policy ∷ policies) proposed limit =
      limit_loop-IsOk (λ i. clock (suc i)) current events policies _ _

  scale_down_limit-IsOk :
      (clock : ℕ → Time) (current : ℤ) (events : List ScaleEvent) (rules : ScalingRules)
      → (rules.select_policy ≡ some "Min") ⊎ (rules.select_policy ≡ some "Disabled")
      → IsOk (scale_down_limit fl clock current events (some rules))
  unfolding scale_down_limit select_down
  scale_down_limit-IsOk clock current events rules (inl least) = rw least (
      >>=-IsOk (limit_loop fl (some min) clock current events rules.policies (pos 0) max_int32) _
        (limit_loop-IsOk clock current events rules.policies (pos 0) max_int32)
        (λ limit _. (_, refl)))
  scale_down_limit-IsOk clock current events rules (inr disabled) = (current, rw disabled refl)

  convert_desired_replicas-IsOk :
      (clock : ℕ → Time) (info : ReviseInfo) (events : List ScaleEvent) (rules : ScalingRules)
      → info.scale_up_behavor ≡ some rules
      → (rules.select_policy ≡ some "Min") ⊎ (rules.select_policy ≡ some "Disabled")
      → IsOk (convert_desired_replicas fl clock info events)
  unfolding convert_desired_replicas
  convert_desired_replicas-IsOk clock info events rules has policy =
      let (limit, run) = scale_down_limit-IsOk clock info.current_replicas events rules policy in
      let irreflexive : ltb_ℤ info.desired_replicas info.desired_replicas ≡ false = ground arith in
      elim (Bool-cases (ltb_ℤ info.desired_replicas info.current_replicas)) [
        | inl down ↦ (
          if ltb_ℤ info.desired_replicas limit
              then (limit, "scaleDownLimit")
              else (info.desired_replicas, "DesiredWithinRange"),
          rw (irreflexive, down, has, run) refl,
        )
        | inr up ↦ ((pos 0, ""), rw (irreflexive, up) refl)
      ]

  -- With both rules and their windows set, and the select policy Min or Disabled for scaling up,
  -- the revision returns.
  pub revise_with_behavor-IsOk :
      (now : Time × Time × Time) (clock : ℕ → Time) (desired current : ℤ) (b : Behavior)
      (records : List RecommendationRecord) (events : List ScaleEvent)
      → IsRuled b
      → IsOk (revise_with_behavor fl now clock desired current (some b) records events)
  unfolding revise_with_behavor
  revise_with_behavor-IsOk now clock desired current b records events ruled =
      let info = info_of fl now clock desired current records events b desired in
      let (d, records', stabilized, _, _, _, _) =
        stabilization_least now.0 now.1 now.2 info ruled.up ruled.down ruled.has_up ruled.has_down
          ruled.has_up_window ruled.has_down_window records in
      let ((n, reason), converted) =
        convert_desired_replicas-IsOk clock (record info { desired_replicas = d }) events ruled.up
          ruled.has_up ruled.policy in
      ((n, records'), ground (arith, stabilized, converted, ruled.has_down, ruled.has_down_window))
