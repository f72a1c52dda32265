-- ===== src/Daofa/Behavior/Revision.antt =====
-- `ReviseWithBehavor` and `convertDesiredReplicasWithBehaviorRate` of
-- pkg/zaohua/daofa/behavor_processor.go.
use sunwukong.Base.{
  String, ℕ, Option, none, some, List, Result, ok, panic, nil_dereference, ◌>>=◌, deref,
  if◌then◌else◌,
}
use sunwukong.Base.Int.{ℤ, pos, ltb_ℤ}
use sunwukong.Float.{Float}
use sunwukong.Kube.Time.{Time}
use sunwukong.Kube.Autoscaling.{Behavior}
use sunwukong.Daofa.Records.{RecommendationRecord, ScaleEvent}
use sunwukong.Daofa.Behavior.Stabilization.{ReviseInfo, stabilization_recommendation}
use sunwukong.Daofa.Behavior.Rates.{scale_up_limit, scale_down_limit}

-- Initialising the window writes through the very pointer that is nil.
unfoldable pub init_window : Option Behavior → Result (Unit {0})
init_window none = ok tt
init_window (some b) = elim b.scale_down [
  | none ↦ ok tt
  | some rules ↦ elim rules.stabilization_window_seconds [
    | none ↦ panic nil_dereference
    | some s ↦ ok tt
  ]
]

module _ {F : Type 0} (fl : Float F) where
  -- `convertDesiredReplicasWithBehaviorRate`: the replicas and the reason.
  unfoldable pub convert_desired_replicas :
      (ℕ → Time) → ReviseInfo → List ScaleEvent → Result (ℤ × String)
  unfolding scale_up_limit scale_down_limit
  convert_desired_replicas clock info events =
      if ltb_ℤ info.desired_replicas info.desired_replicas
      then (do
        limit ← scale_up_limit fl clock info.current_replicas events info.scale_up_behavor
        ok (
            if ltb_ℤ limit info.desired_replicas
            then (limit, "scaleUpLimit")
            else (info.desired_replicas, "DesiredWithinRange")))
      else if ltb_ℤ info.desired_replicas info.current_replicas
      then (do
        limit ← scale_down_limit fl clock info.current_replicas events info.scale_up_behavor
        ok (
            if ltb_ℤ info.desired_replicas limit
            then (limit, "scaleDownLimit")
            else (info.desired_replicas, "DesiredWithinRange")))
      else ok (pos 0, "")

  -- `ReviseWithBehavor`: the replicas, and the records after it. `now` has the readings of the
  -- stabilization, `clock` those of the rate limit.
  unfoldable pub revise_with_behavor :
      (Time × Time × Time)
      → (ℕ → Time)
      → ℤ
      → ℤ
      → Option Behavior
      → List RecommendationRecord
      → List ScaleEvent
      → Result (ℤ × List RecommendationRecord)
  unfolding stabilization_recommendation convert_desired_replicas init_window
  revise_with_behavor (now1, now2, now3) clock desired current behavor records events = do
    _ ← init_window behavor
    b ← deref behavor
    let info : ReviseInfo = record {
      scale_up_behavor = b.scale_up;
      scale_down_behavor = b.scale_down;
      current_replicas = current;
      desired_replicas = desired;
    }
    (recommendation, records') ← stabilization_recommendation now1 now2 now3 info records
    let revised : ReviseInfo = record info { desired_replicas = recommendation }
    (replicas, reason) ← convert_desired_replicas clock revised events
    ok (replicas, records')
