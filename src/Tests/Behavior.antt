-- ===== src/Tests/Behavior.antt =====
-- Runs of pkg/zaohua/daofa/behavor_processor.go and of the histories.
use sunwukong.Base.{
  IsOk, inl, inr, String, ℕ, ◌≡◌, refl, ◌⊎◌, false, if◌then◌else◌, some, List, [], ◌∷◌, length,
  arith, ok, panic, nil_function,
}
use sunwukong.Base.Int.{ℤ, pos, ◌≤ℤ◌, ◌+ℤ◌, ◌-ℤ◌, ◌*ℤ◌, quot_ℤ}
use sunwukong.Base.Words.{◌+32◌, ◌-32◌, wrap32, wrap64, mul64}
use sunwukong.Kube.Time.{Time, seconds, back, before}
use sunwukong.Kube.Autoscaling.{ScalingPolicy, ScalingRules, Behavior}
use sunwukong.Daofa.Records.{RecommendationRecord, ScaleEvent, min}
use sunwukong.Daofa.Behavior.{
  ReviseInfo, stabilization_recommendation, revise_with_behavor, scale_up_limit, scale_down_limit,
  percent_of,
}
use sunwukong.Daofa.Behavior.Window.{IsBelow, IsAmong, any_before, delay_of, stabilization_least}
use sunwukong.Daofa.Behavior.Limits.{IsUnassigned, limits-panic}
use sunwukong.Daofa.Behavior.Revise.{revise_never_up}
use sunwukong.Daofa.Events.{store_event}
use sunwukong.Daofa.Events.Kept.{IsIn, any_old, store_event_keeps}
use sunwukong.Daofa.Behavior.Exact.{IsLeast, proposals, limits_exact}
use sunwukong.Tests.Fixture.{fl}

abbrev clock : ℕ → Time
clock i = pos 1_000_000_000_000

abbrev now : Time
now = pos 1_000_000_000_000

abbrev pods_policy : ℤ → ScalingPolicy
pods_policy n = record { type = "Pods"; value = n; period_seconds = pos 60 }

abbrev rules_of : String → ℤ → ScalingRules
rules_of policy window = record {
  stabilization_window_seconds = some window;
  select_policy = some policy;
  policies = pods_policy (pos 2) ∷ [];
}

abbrev info_of : ℤ → ℤ → ReviseInfo
info_of current desired = record {
  scale_up_behavor = some (rules_of "Min" (pos 0));
  scale_down_behavor = some (rules_of "Min" (pos 300));
  current_replicas = current;
  desired_replicas = desired;
}

abbrev behavor : Behavior
behavor = record {
  scale_up = some (rules_of "Min" (pos 0));
  scale_down = some (rules_of "Min" (pos 300));
}

abbrev records : List RecommendationRecord
records =
    record { desired_replicas = pos 4; timestamp = pos 900_000_000_000 }
    ∷ record { desired_replicas = pos 2; timestamp = pos 100_000_000_000 }
    ∷ []

stabilization_least_example :
    let cutoff = back now (seconds (delay_of (info_of (pos 6) (pos 5)) (pos 0) (pos 300))) in
    (r : ℤ) × (records' : List RecommendationRecord) × (stabilization_recommendation now now now
        (info_of (pos 6) (pos 5))
        records
      ≡ ok (r, records'))
    × (r ≤ℤ pos 5)
    × IsBelow cutoff records r
    × IsAmong cutoff (pos 5) records r
    × (length records'
        ≡ (if any_before (back now (seconds (min (pos 0) (pos 300)))) records then 2 else 3))
stabilization_least_example =
    stabilization_least now now now (info_of (pos 6) (pos 5)) (rules_of "Min" (pos 0))
      (rules_of "Min" (pos 300)) refl refl refl refl records

revise_never_up_example : (pos 6 ≡ pos 0) ⊎ (pos 6 ≤ℤ pos 6)
unfolding revise_with_behavor min ◌+32◌ wrap32 ◌+ℤ◌ ◌-32◌ ◌-ℤ◌
revise_never_up_example =
    revise_never_up fl (now, now, now) clock (pos 3) (pos 6) [] [] behavor refl

limits-panic_example :
    (IsUnassigned (rules_of "Max" (pos 0)) "Max"
      → (scale_up_limit fl clock (pos 6) [] (some (rules_of "Max" (pos 0))) ≡ panic nil_function)
        × (scale_down_limit fl clock (pos 6) [] (some (rules_of "Max" (pos 0)))
            ≡ panic nil_function))
    × (¬ IsUnassigned (rules_of "Max" (pos 0)) "Max"
        → IsOk (scale_up_limit fl clock (pos 6) [] (some (rules_of "Max" (pos 0))))
          × IsOk (scale_down_limit fl clock (pos 6) [] (some (rules_of "Max" (pos 0)))))
limits-panic_example = limits-panic fl clock (pos 6) [] (rules_of "Max" (pos 0)) "Max" refl

abbrev event : ℤ → ScaleEvent
event n = record { replica_change = pos 1; timestamp = n; outdated = false }

abbrev events : List ScaleEvent
events = event (pos 900_000_000_000) ∷ event (pos 990_000_000_000) ∷ []

store_event_keeps_example :
    let cutoff = back now (seconds (pos 60)) in
    let new : ScaleEvent = record { replica_change = pos 2; timestamp = now; outdated = false } in
    let after = store_event now now (pos 60) (pos 2) events in
    IsIn new after
    × ((e : ScaleEvent)
        → IsIn e events
        → e.outdated ≡ false
        → before e.timestamp cutoff ≡ false
        → IsIn e after)
    × (length after ≡ (if any_old cutoff events then 2 else 3))
store_event_keeps_example = store_event_keeps now now (pos 60) (pos 2) events

-- Ten replicas were added within the last minute, and more before.
abbrev growth : List ScaleEvent
growth =
    record { replica_change = pos 7; timestamp = pos 100_000_000_000; outdated = false }
    ∷ record { replica_change = pos 6; timestamp = pos 990_000_000_000; outdated = false }
    ∷ record { replica_change = pos 4; timestamp = pos 995_000_000_000; outdated = false }
    ∷ []

abbrev mixed_rules : ScalingRules
mixed_rules = record (rules_of "Min" (pos 0)) {
  policies =
      pods_policy (pos 2)
      ∷ record { type = "Percent"; value = pos 100; period_seconds = pos 60 }
      ∷ [];
}

limits_exact_example :
    (scale_up_limit fl clock (pos 20) growth (some mixed_rules) ≡ ok (pos 20))
    × ((l : ℤ) × (scale_down_limit fl clock (pos 20) growth (some mixed_rules) ≡ ok l)
        × IsLeast (pos 20) (pos 12 ∷ pos 20 ∷ []) l)
unfolding proposals percent_of back seconds mul64 wrap64 ◌*ℤ◌ wrap32 ◌+ℤ◌ ◌-ℤ◌ quot_ℤ
limits_exact_example =
    limits_exact fl (pos 20) growth clock mixed_rules (omega arith, omega arith) refl
      (inl refl, (inr refl, tt))
