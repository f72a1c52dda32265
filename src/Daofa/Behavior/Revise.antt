-- ===== src/Daofa/Behavior/Revise.antt =====
-- `convertDesiredReplicasWithBehaviorRate` and `ReviseWithBehavor` as wholes.
use sunwukong.Base.{
  String, ℕ, ◌≡◌, ◌⊎◌, inl, inr, Option, none, some, List, arith, ok, panic, nil_dereference,
  >>=-eq-ok, Bool-cases,
}
use sunwukong.Base.Int.{ℤ, pos, ◌≤ℤ◌, ◌<ℤ◌, ltb_ℤ}
use sunwukong.Float.{Float}
use sunwukong.Kube.Time.{Time}
use sunwukong.Kube.Autoscaling.{ScalingRules, Behavior}
use sunwukong.Daofa.Records.{RecommendationRecord, ScaleEvent}
use sunwukong.Daofa.Behavior.{
  ReviseInfo, stabilization_recommendation, convert_desired_replicas, init_window,
  revise_with_behavor,
}
use sunwukong.Daofa.Behavior.Limits.{scale_down_limit-le}

module _ {F : Type 0} (fl : Float F) (clock : ℕ → Time) where
  -- Unless fewer replicas are asked for than there are, the answer is 0 with an empty reason: the
  -- test for scaling up compares the desired number with itself.
  pub convert_up_zero :
      (info : ReviseInfo) (events : List ScaleEvent)
      → info.current_replicas ≤ℤ info.desired_replicas
      → convert_desired_replicas fl clock info events ≡ ok (pos 0, "")
  unfolding convert_desired_replicas
  convert_up_zero info events h = ground arith

  -- When fewer are asked for, the answer lies between the number asked for and the current one.
  pub convert_down_bounds :
      (info : ReviseInfo) (events : List ScaleEvent) {r : ℤ} {reason : String}
      → info.desired_replicas <ℤ info.current_replicas
      → convert_desired_replicas fl clock info events ≡ ok (r, reason)
      → (info.desired_replicas ≤ℤ r) × (r ≤ℤ info.current_replicas)
  unfolding convert_desired_replicas
  convert_down_bounds info events h e =
      grind (arith, scale_down_limit-le fl clock info.current_replicas events info.scale_up_behavor)

module _ {F : Type 0} (fl : Float F) (now : Time × Time × Time) (clock : ℕ → Time)
    (desired current : ℤ) (records : List RecommendationRecord) (events : List ScaleEvent) where
  -- A behavior whose rules for scaling down have no stabilization window makes the revision panic:
  -- the default is written through the pointer that is nil.
  pub revise-panic :
      (up : Option ScalingRules) (down : ScalingRules)
      → down.stabilization_window_seconds ≡ none
      → revise_with_behavor fl now clock desired current
          (some (record { scale_up = up; scale_down = some down }))
          records
          events
        ≡ panic nil_dereference
  unfolding revise_with_behavor
  revise-panic up down e = rw (e, init_window)

  abbrev pub info_of : Behavior → ℤ → ReviseInfo
  info_of b d = record {
    scale_up_behavor = b.scale_up;
    scale_down_behavor = b.scale_down;
    current_replicas = current;
    desired_replicas = d;
  }

  convert_le_or_zero :
      (info : ReviseInfo) {r : ℤ} {reason : String}
      → convert_desired_replicas fl clock info events ≡ ok (r, reason)
      → (r ≡ pos 0) ⊎ (r ≤ℤ info.current_replicas)
  convert_le_or_zero info h =
      elim (Bool-cases (ltb_ℤ info.desired_replicas info.current_replicas)) [
        | inl down ↦ inr (convert_down_bounds fl clock info events (ground arith) h).1
        | inr up ↦ inl (ground (arith, convert_up_zero fl clock info events))
      ]

  -- Whenever the revision returns, its answer is 0 or at most the current number of replicas: it
  -- never lets a scaling up through.
  pub revise_never_up :
      (b : Behavior) {r : ℤ} {records' : List RecommendationRecord}
      → revise_with_behavor fl now clock desired current (some b) records events ≡ ok (r, records')
      → (r ≡ pos 0) ⊎ (r ≤ℤ current)
  unfolding revise_with_behavor
  revise_never_up b h =
      let (_, _, h1) = >>=-eq-ok (init_window (some b)) _ h in
      let ((d, rs), _, h2) =
        >>=-eq-ok (stabilization_recommendation now.0 now.1 now.2 (info_of b desired) records) _
          h1 in
      let ((r', reason), e, h3) =
        >>=-eq-ok (convert_desired_replicas fl clock (info_of b d) events) _ h2 in
      ground (arith, convert_le_or_zero (info_of b d) e)
