-- ===== src/Tests/Runs.antt =====
-- Runs of the loop of pkg/zaohua/daofa/zaohua.go, with a cluster that changes.
use mathlib.Core.Path.{subst}
use sunwukong.Base.{
  some, ◌++◌, refl, [], ◌∷◌, arith, Option, none, Error, from_ok, All, Result, ok-inj, ok, ◌≡◌,
}
use sunwukong.Base.Int.{ℤ, pos, ◌*ℤ◌, ◌-ℤ◌, quot_ℤ, ◌≤ℤ◌}
use sunwukong.Houmao.{Houmao}
use sunwukong.Kube.Autoscaling.{Scale}
use sunwukong.Base.Words.{wrap32, max_int32}
use sunwukong.Metrics.Client.{get_object_metric}
use sunwukong.Daofa.Replicas.Object.{replicas_with_object, object_replicas_per_pod}
use sunwukong.Daofa.Events.{storage_scale_event}
use sunwukong.Daofa.Calculate.{calculate, calculate_loop, answer, consider, name_of, clamp}
use sunwukong.Daofa.Scale.Effect.{store_of}
use sunwukong.Daofa.Loop.{Phase, Loop, round_of, Own, Step}
use sunwukong.Daofa.Loop.Updates.{Sends, IsLimited, Run-Sends}
use sunwukong.Daofa.Loop.Worlds.{detect_at, Run}
use sunwukong.Daofa.Loop.Histories.{IsHistory, IsNatural, Run-IsHistory}
use sunwukong.Daofa.Loop.Ascends.{Follows, Ascends, Run-Ascends}
use sunwukong.Daofa.Loop.Refines.{Run-refines}
use sunwukong.Daofa.Autoscaler.{World, IsDue, due, all_due}
use sunwukong.Daofa.Cluster.{CalculateHandle}
use sunwukong.Daofa.Scale.{
  Round, waits, returns, get_scale_for_target, exec_scale, revise_records, conclude, update_status,
  detect_and_scale,
}
use sunwukong.Tests.Fixture.{fl, failed_pod, api_of, handle_of}
use sunwukong.Tests.Scale.{houmao, store, readings, client, handle}

-- A run of one round, which sends an update.
abbrev failure_of : Round → Option Error
failure_of (waits s) = none
failure_of (returns failure s) = failure

abbrev busy : Loop
busy = record {
  phase = Phase.starting;
  object = houmao;
  houmao_object = houmao;
  sending = 0;
  waiting = 0;
  store = store;
}

abbrev end_of_round : Round
end_of_round =
    from_ok (returns none store) (detect_and_scale fl handle client readings houmao store)

abbrev rested : Loop
rested = record busy { phase = Phase.selecting; store = store_of end_of_round }

-- Later the scale has what was sent, and the metric is greater.
abbrev early : World
early = record { cluster = handle.cluster; client = client; readings = readings }

abbrev later_scale : Scale
later_scale = record { spec_replicas = pos 4; status_replicas = pos 4; selector = "app=web" }

abbrev later : World
later = record {
  cluster = CalculateHandle.cluster (handle_of (failed_pod ∷ []) (api_of [] [] (pos 5000)));
  client = record client { get_scale = λ key. ok later_scale };
  readings = readings;
}

abbrev resumed : Loop
resumed = record rested { phase = Phase.starting }

abbrev end_of_second : Round
end_of_second = from_ok (returns none store) (detect_at fl handle later houmao rested.store)

abbrev finished : Loop
finished = record rested { store = store_of end_of_second }

abbrev second_round : Own (detect_at fl handle later) "Zhudong" resumed finished
unfolding round_of detect_and_scale get_scale_for_target calculate calculate_loop answer consider
    replicas_with_object object_replicas_per_pod get_object_metric ◌*ℤ◌ ◌-ℤ◌ wrap32 quot_ℤ name_of
    clamp exec_scale revise_records storage_scale_event conclude update_status store_of
second_round =
    Own.finish resumed (failure_of end_of_second) (store_of end_of_second) houmao refl refl
      (refl, refl)

abbrev first_round : Own (detect_at fl handle early) "Zhudong" busy rested
unfolding round_of detect_and_scale get_scale_for_target calculate calculate_loop answer consider
    replicas_with_object object_replicas_per_pod get_object_metric ◌*ℤ◌ ◌-ℤ◌ wrap32 quot_ℤ name_of
    clamp exec_scale revise_records storage_scale_event conclude update_status store_of
first_round =
    Own.finish busy (failure_of end_of_round) (store_of end_of_round) houmao refl refl (refl, refl)

abbrev two_rounds : Run fl handle "Zhudong" busy finished
two_rounds = Run.then busy rested finished early (Step.own busy rested first_round) (
    Run.then rested resumed finished later (Step.own rested resumed (Own.next rested refl refl)) (
      Run.then resumed finished finished later (Step.own resumed finished second_round)
        (Run.stay finished)))

Run-Sends_example : Sends (pos 1) (pos 5) 2 [] (pos 4 ∷ pos 5 ∷ [])
unfolding detect_and_scale get_scale_for_target calculate calculate_loop answer consider
    replicas_with_object object_replicas_per_pod get_object_metric ◌*ℤ◌ ◌-ℤ◌ wrap32 quot_ℤ name_of
    clamp exec_scale revise_records storage_scale_event conclude update_status store_of first_round
Run-Sends_example =
    let limited : IsLimited (pos 1) (pos 5) houmao =
      (pos 1, refl, omega arith, omega arith, omega arith) in
    Run-Sends (pos 1) (pos 5) fl handle "Zhudong" busy finished two_rounds
      (limited, (limited, (limited, tt)))

-- What is due is 4 replicas at first, and 5 later.
Run-refines_example :
    ((pos 4 ∷ pos 5 ∷ [])
      ≡ [] ++ all_due fl handle "Zhudong" ((early, houmao) ∷ (later, houmao) ∷ []))
    × ((w : World) (object : Houmao) (n : ℤ)
        → due fl handle "Zhudong" w object ≡ some n
        → IsDue fl handle w object n × ((k : ℤ) → IsDue fl handle w object k → k ≡ n))
unfolding detect_and_scale get_scale_for_target calculate calculate_loop answer consider
    replicas_with_object object_replicas_per_pod get_object_metric ◌*ℤ◌ ◌-ℤ◌ wrap32 quot_ℤ name_of
    clamp exec_scale revise_records storage_scale_event conclude update_status store_of all_due
    first_round
Run-refines_example = Run-refines fl handle "Zhudong" busy finished two_rounds

-- Once 4 replicas were sent, the target runs 4.
followed_later :
    (scale : Scale)
    → ◌≡◌ {A = Result Scale} (ok later_scale) (ok scale)
    → All (λ k. k ≤ℤ scale.status_replicas) (pos 4 ∷ [])
followed_later scale found =
    subst (λ (x : Scale). All (λ k. k ≤ℤ x.status_replicas) (pos 4 ∷ [])) (ok-inj found)
      (omega arith, tt)

Run-Ascends_example : Ascends fl handle "Zhudong" (pos 5) (pos 4 ∷ pos 5 ∷ [])
unfolding detect_and_scale get_scale_for_target calculate calculate_loop answer consider
    replicas_with_object object_replicas_per_pod get_object_metric ◌*ℤ◌ ◌-ℤ◌ wrap32 quot_ℤ name_of
    clamp exec_scale revise_records storage_scale_event conclude update_status store_of
Run-Ascends_example =
    let later_follows : Follows fl handle "Zhudong" (pos 5) later rested =
      (pos 1, refl, omega arith, refl, followed_later) in
    Run-Ascends fl handle "Zhudong" (pos 5) busy finished two_rounds
      ((pos 1, refl, omega arith, refl, λ scale found. tt), (later_follows, (later_follows, tt)))
      (tt, tt)

-- The replicas of a scale that the API server answers with are those of the scale that it holds.
natural_scale :
    (held scale : Scale)
    → ◌≡◌ {A = Result Scale} (ok held) (ok scale)
    → (pos 0 ≤ℤ held.spec_replicas) × (held.spec_replicas ≤ℤ max_int32)
    → (pos 0 ≤ℤ scale.spec_replicas) × (scale.spec_replicas ≤ℤ max_int32)
natural_scale held scale found natural =
    subst (λ (x : Scale). (pos 0 ≤ℤ x.spec_replicas) × (x.spec_replicas ≤ℤ max_int32))
      (ok-inj found) natural

Run-IsHistory_example : IsHistory (Loop.store finished)
unfolding detect_and_scale get_scale_for_target
Run-IsHistory_example =
    let limited : IsLimited (pos 0) max_int32 houmao =
      (pos 1, refl, omega arith, omega arith, omega arith) in
    let later_natural : IsNatural fl handle "Zhudong" later rested =
      (limited, λ scale found. natural_scale later_scale scale found (omega arith, omega arith)) in
    Run-IsHistory fl handle "Zhudong" busy finished two_rounds
      (
        (limited, λ scale found. natural_scale _ scale found (omega arith, omega arith)),
        (later_natural, (later_natural, tt)),
      )
      (tt, tt)
