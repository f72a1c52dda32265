-- ===== src/Daofa/Events.antt =====
-- `storageScaleEvent` of pkg/zaohua/daofa/zaohua.go and the functions that it calls: the histories
-- of scaling events.
pub mod Kept
pub mod Changes
use sunwukong.Base.{
  ℕ, zero, suc, Bool, true, false, Option, none, some, List, [], ◌∷◌, ◌++◌, set, Result, ok, ◌>>=◌,
  deref, if◌then◌else◌,
}
use sunwukong.Base.Int.{ℤ, pos, ltb_ℤ}
use sunwukong.Base.Words.{◌-32◌}
use sunwukong.Kube.Time.{Time, seconds, back, before}
use sunwukong.Kube.Autoscaling.{ScalingPolicy, ScalingRules, Behavior}
use sunwukong.Daofa.Records.{ScaleEvent}

-- `getLongestPolicyPeriod`
unfoldable pub longest_period : List ScalingPolicy → ℤ → ℤ
longest_period [] longest = longest
longest_period (policy ∷ policies) longest =
    longest_period policies
      (if ltb_ℤ longest policy.period_seconds then policy.period_seconds else longest)

unfoldable pub longest_policy_period : Option ScalingRules → Result ℤ
unfolding longest_period
longest_policy_period rules = do r ← deref rules; ok (longest_period r.policies (pos 0))

abbrev pub mark : Time → ScaleEvent → ScaleEvent
mark cutoff e = if before e.timestamp cutoff then record e { outdated = true } else e

unfoldable pub mark_all : Time → List ScaleEvent → List ScaleEvent
mark_all cutoff [] = []
mark_all cutoff (e ∷ events) = mark cutoff e ∷ mark_all cutoff events

-- `markScaleUpEventsOutdated` and `markScaleDownEventsOutdated`, on the events of either.
unfoldable pub mark_events_outdated : Time → ℤ → List ScaleEvent → List ScaleEvent
unfolding mark_all
mark_events_outdated now longest events = mark_all (back now (seconds longest)) events

-- The index of the last event that is outdated: `foundOldSample` and `oldSampleIndex`.
unfoldable pub old_sample : ℕ → List ScaleEvent → Option ℕ → Option ℕ
old_sample i [] found = found
old_sample i (e ∷ events) found = old_sample (suc i) events (if e.outdated then some i else found)

unfoldable pub replace_or_append : Option ℕ → ScaleEvent → List ScaleEvent → List ScaleEvent
replace_or_append (some i) e events = set events i e
replace_or_append none e events = events ++ (e ∷ [])

-- What either branch of `storageScaleEvent` does to its events.
unfoldable pub store_event : Time → Time → ℤ → ℤ → List ScaleEvent → List ScaleEvent
unfolding mark_events_outdated old_sample replace_or_append
store_event now1 now2 longest change events =
    let marked = mark_events_outdated now1 longest events in
    replace_or_append (old_sample 0 marked none)
      (record { replica_change = change; timestamp = now2; outdated = false }) marked

-- The events for scaling up and those for scaling down, after `storageScaleEvent`.
unfoldable pub storage_scale_event :
    Time
    → Time
    → Option Behavior
    → ℤ
    → ℤ
    → List ScaleEvent
    → List ScaleEvent
    → Result (List ScaleEvent × List ScaleEvent)
unfolding longest_policy_period store_event
storage_scale_event now1 now2 none pre new ups downs = ok (ups, downs)
storage_scale_event now1 now2 (some b) pre new ups downs =
    if ltb_ℤ pre new
    then (do
      longest ← longest_policy_period b.scale_up
      ok (store_event now1 now2 longest (new -32 pre) ups, downs))
    else (do
      longest ← longest_policy_period b.scale_down
      ok (ups, store_event now1 now2 longest (pre -32 new) downs))
