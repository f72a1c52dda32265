-- ===== src/Daofa/Scale/Total.antt =====
-- When a round of pkg/zaohua/daofa/zaohua.go ends with a value.
use sunwukong.Base.{
  ◌⊎◌, String, ◌≡◌, refl, ◌≤◌, inl, inr, true, false, ◌&&◌, Option, none, some, List, [], ◌∷◌, ◌++◌,
  All, length, ltb, arith, Error, NeverPanics, IsOk, >>=-IsOk, Result, ok, err, panic, Bool-cases,
  Option-cases, if◌then◌else◌,
}
use sunwukong.Base.Int.{ℤ, pos, ltb_ℤ, eqb_ℤ}
use sunwukong.Float.{Float}
use sunwukong.Kube.Autoscaling.{ScalingRules, Behavior, Scale}
use sunwukong.Kube.Names.{NamespacedName}
use sunwukong.Houmao.{ZaohuaResult, Houmao}
use sunwukong.Status.{PatchClient}
use sunwukong.Daofa.Records.{ScaleEvent}
use sunwukong.Daofa.Behavior.{revise_with_behavor}
use sunwukong.Daofa.Behavior.Total.{IsRuled, revise_with_behavor-IsOk}
use sunwukong.Daofa.Events.{longest_period, longest_policy_period, storage_scale_event}
use sunwukong.Daofa.Groups.{is_set}
use sunwukong.Daofa.Cluster.{CalculateHandle}
use sunwukong.Daofa.Replicas.Total.{IsSafe}
use sunwukong.Daofa.Calculate.{Choice, calculate}
use sunwukong.Daofa.Calculate.Total.{IsServed, calculate-NeverPanics}
use sunwukong.Daofa.Scale.{
  Store, Readings, Returned, revise_records, record_event, exec_revised, exec_scale, push_result,
  next_record, update_status, ScaleClient, get_scale_for_target, waits, returns, result_of,
  conclude, apply_choice, scale_object, detect_and_scale,
}

longest_policy_period-IsOk :
    (rules : Option ScalingRules) {r : ScalingRules}
    → rules ≡ some r
    → IsOk (longest_policy_period rules)
unfolding longest_policy_period
longest_policy_period-IsOk rules {r} has = (longest_period r.policies (pos 0), rw has refl)

module _ {F : Type 0} (fl : Float F) (readings : Readings) (behavor : Behavior)
    (ruled : IsRuled behavor) where
  revise_records-IsOk :
      (scaled current : ℤ) (store : Store)
      → IsOk (revise_records fl readings behavor scaled current store)
  unfolding revise_records
  revise_records-IsOk scaled current store =
      let both : (is_set behavor.scale_up && is_set behavor.scale_down) ≡ true =
        rw (ruled.has_up, ruled.has_down) refl in
      rw both (
        >>=-IsOk
          (revise_with_behavor fl readings.stabilization readings.limits scaled current
            (some behavor) store.recommendation_records
            (if ltb_ℤ current scaled then store.scale_up_events else store.scale_down_events))
          _
          (revise_with_behavor-IsOk fl readings.stabilization readings.limits scaled current behavor
            store.recommendation_records
            (if ltb_ℤ current scaled then store.scale_up_events else store.scale_down_events) ruled)
          (λ (final, records) _. (records, refl)))

  storage_scale_event-IsOk :
      (pre new : ℤ) (ups downs : List ScaleEvent)
      → IsOk (storage_scale_event readings.outdated readings.event (some behavor) pre new ups downs)
  unfolding storage_scale_event
  storage_scale_event-IsOk pre new ups downs = elim (Bool-cases (ltb_ℤ pre new)) [
    | inl up ↦ rw up (
        >>=-IsOk (longest_policy_period behavor.scale_up) _
          (longest_policy_period-IsOk behavor.scale_up ruled.has_up) (λ longest _. (_, refl)))
    | inr down ↦ rw down (
        >>=-IsOk (longest_policy_period behavor.scale_down) _
          (longest_policy_period-IsOk behavor.scale_down ruled.has_down) (λ longest _. (_, refl)))
  ]

  record_event-IsOk :
      (answer : Error ⊎ ℤ) (scaled : ℤ) (scale : Scale) (sent : Store)
      → IsOk (record_event fl readings answer scaled scale behavor sent)
  unfolding record_event
  record_event-IsOk (inl e) scaled scale sent = (_, refl)
  record_event-IsOk (inr answered) scaled scale sent =
      >>=-IsOk
        (storage_scale_event readings.outdated readings.event (some behavor) scale.spec_replicas
          scaled sent.scale_up_events sent.scale_down_events)
        _
        (storage_scale_event-IsOk scale.spec_replicas scaled sent.scale_up_events
          sent.scale_down_events)
        (λ (ups, downs) _. (_, refl))

  exec_scale-IsOk :
      (update : ℤ → Error ⊎ ℤ) (scaled : ℤ) (scale : Scale) (store : Store)
      → IsOk (exec_scale fl readings update scaled scale behavor store)
  unfolding exec_scale exec_revised
  exec_scale-IsOk update scaled scale store =
      let (records, run) = revise_records-IsOk scaled scale.spec_replicas store in
      rw run (
        record_event-IsOk (update scaled) scaled scale (record store {
          recommendation_records = records;
          updates = store.updates ++ (scaled ∷ []);
        }))

update_status-IsOk :
    (client : PatchClient) (object : Houmao) (origin : ℤ) (result : ZaohuaResult)
    → 5 ≤ length object.status.zaohua_record.last_5th_zaohua_result
    → IsOk (update_status client object origin result)
unfolding update_status next_record push_result
update_status-IsOk client object origin result five =
    let fits : ltb (length object.status.zaohua_record.last_5th_zaohua_result) 5 ≡ false =
      ground arith in
    rw fits (_, refl)

-- What a round needs of the cluster and of the object.
pub record IsReady {F : Type 0} (c : CalculateHandle F) (client : ScaleClient) (object : Houmao)
    : Type 0 where
  pub cluster : IsSafe c
  pub get_scale : (key : NamespacedName) → NeverPanics (client.get_scale key)
  pub parse_selector : (selector : String) → NeverPanics (client.parse_selector selector)
  pub metrics : All IsServed object.spec.metrics
  pub least : ℤ
  pub has_least : object.spec.min_replicas ≡ some least
  pub behavor : IsRuled object.spec.behavor
  pub five : 5 ≤ length object.status.zaohua_record.last_5th_zaohua_result

module _ {F : Type 0} (fl : Float F) (c : CalculateHandle F) (client : ScaleClient)
    (readings : Readings) (object : Houmao) (ready : IsReady c client object) where
  conclude-IsOk :
      (choice : Choice) (current : ℤ) (outcome : Returned ℤ × Store)
      → IsOk (conclude fl c client readings object choice current outcome)
  unfolding conclude
  conclude-IsOk choice current ((desired, failure), store) =
      >>=-IsOk
        (update_status client.patch object store.origin_replicas
          (result_of readings.result current desired choice))
        _
        (update_status-IsOk client.patch object store.origin_replicas
          (result_of readings.result current desired choice) ready.five)
        (λ (failure', patches) _. (_, refl))

  apply_choice-IsOk :
      (chosen : Result Choice) (scale : Scale) (store : Store)
      → NeverPanics chosen
      → IsOk (apply_choice fl c client readings chosen object scale store)
  unfolding apply_choice
  apply_choice-IsOk (panic p) scale store calm = absurd (calm p refl)
  apply_choice-IsOk (err e) scale store calm = (_, refl)
  apply_choice-IsOk (ok choice) scale store calm =
      elim (Bool-cases (eqb_ℤ choice.replicas scale.spec_replicas)) [
        | inl same ↦ (returns none store, rw same refl)
        | inr differs ↦ rw differs (
            >>=-IsOk
              (exec_scale fl readings client.update_scale choice.replicas scale object.spec.behavor
                store)
              _
              (exec_scale-IsOk fl readings object.spec.behavor ready.behavor client.update_scale
                choice.replicas scale store)
              (λ outcome _. conclude-IsOk choice scale.spec_replicas outcome))
      ]

  scale_object-IsOk :
      (got : Result Scale) (store : Store)
      → NeverPanics got
      → IsOk (scale_object fl c client readings got object store)
  unfolding scale_object
  scale_object-IsOk (panic p) store calm = absurd (calm p refl)
  scale_object-IsOk (err e) store calm = (_, refl)
  scale_object-IsOk (ok scale) store calm =
      apply_choice-IsOk (calculate fl c client.parse_selector object scale) scale
        (record store { origin_replicas = scale.spec_replicas })
        (calculate-NeverPanics fl c ready.cluster client.parse_selector object scale
          (ready.parse_selector scale.selector) ready.metrics ready.has_least)

  -- If the requests to the cluster do not panic, every metric is of a type that is served and names
  -- its target, the least number of replicas is set, the behavior has both rules with their windows
  -- and the select policy Min or Disabled for scaling up, and the status holds five results, then a
  -- round ends with a value: it waits or returns, whatever the cluster answers.
  pub detect_and_scale-IsOk :
      (store : Store) → IsOk (detect_and_scale fl c client readings object store)
  unfolding detect_and_scale get_scale_for_target
  detect_and_scale-IsOk store = elim (Bool-cases (client.is_blank object)) [
    | inl blank ↦ (waits store, rw blank refl)
    | inr full ↦
        elim (Option-cases (client.parse_group_version object.spec.scale_target_ref.api_version)) [
          | inr (e, failed) ↦ (returns (some e) store, rw (full, failed) refl)
          | inl parsed ↦
              rw (full, parsed)
                (scale_object-IsOk
                  (get_scale_for_target client object.spec.scale_target_ref.name object.namespace)
                  store (ready.get_scale _))
        ]
  ]
