-- ===== src/Daofa/Scale/Recorded.antt =====
-- What a round of `detectAndScale` of pkg/zaohua/daofa/zaohua.go does to the histories of events.
use mathlib.Core.Path.{subst}
use sunwukong.Base.{
  ◌≡◌, ◌≢◌, refl, sym, ap, ◌∙◌, ◌⊎◌, inl, inr, some, List, arith, Error, Result, ok, ok-inj, err,
  panic, ◌>>=◌, >>=-eq-ok, Bool-cases, Option-cases,
}
use sunwukong.Base.Int.{ℤ, eqb_ℤ}
use sunwukong.Float.{Float}
use sunwukong.Kube.Autoscaling.{Behavior, Scale}
use sunwukong.Houmao.{Houmao}
use sunwukong.Daofa.Records.{RecommendationRecord, ScaleEvent}
use sunwukong.Daofa.Events.{storage_scale_event}
use sunwukong.Daofa.Cluster.{CalculateHandle}
use sunwukong.Daofa.Calculate.{Choice, calculate}
use sunwukong.Daofa.Scale.{
  get_scale_for_target, Store, Readings, Returned, revise_records, record_event, exec_revised,
  exec_scale, ScaleClient, Round, result_of, conclude, update_status, apply_choice, scale_object,
  detect_and_scale,
}
use sunwukong.Daofa.Scale.Effect.{store_of, IsScaleOf}

-- The two histories of a store.
abbrev pub Histories : Type 0
Histories = List ScaleEvent × List ScaleEvent

abbrev pub histories : Store → Histories
histories store = (store.scale_up_events, store.scale_down_events)

module _ (readings : Readings) (behavor : Behavior) where
  -- The histories stay, or take in a scaling between two numbers of the kind.
  abbrev pub Records : (ℤ → ℤ → Type 0) → Histories → Histories → Type 0
  Records IsScaling old new =
      (new ≡ old)
      ⊎ ((pre : ℤ) × (n : ℤ) × IsScaling pre n
          × (storage_scale_event readings.outdated readings.event (some behavor) pre n old.0 old.1
              ≡ ok new))

module _ {F : Type 0} (fl : Float F) (readings : Readings) (scaled : ℤ) (scale : Scale)
    (behavor : Behavior) (IsScaling : ℤ → ℤ → Type 0)
    (scaling : IsScaling scale.spec_replicas scaled) where
  record_event-Records :
      (answer : Error ⊎ ℤ) (store : Store) {out : Returned ℤ × Store}
      → record_event fl readings answer scaled scale behavor store ≡ ok out
      → Records readings behavor IsScaling (histories store) (histories out.1)
  unfolding record_event
  record_event-Records (inl f) store h = inl (ground arith)
  record_event-Records (inr answered) store h =
      let (new, e, h2) =
        >>=-eq-ok
          (storage_scale_event readings.outdated readings.event (some behavor) scale.spec_replicas
            scaled store.scale_up_events store.scale_down_events)
          _ h in
      inr (
        scale.spec_replicas,
        scaled,
        scaling,
        e ∙ ap (λ (x : Returned ℤ × Store). ok (histories x.1)) (ok-inj h2),
      )

  exec_revised-Records :
      (revised : Result (List RecommendationRecord)) (update : ℤ → Error ⊎ ℤ) (store : Store)
      {out : Returned ℤ × Store}
      → exec_revised fl readings revised update scaled scale behavor store ≡ ok out
      → Records readings behavor IsScaling (histories store) (histories out.1)
  unfolding exec_revised
  exec_revised-Records (ok records) update store h = record_event-Records (update scaled) _ h
  exec_revised-Records (err f) update store h = inl (ground arith)
  exec_revised-Records (panic p) update store h = absurd (ground arith)

  exec_scale-Records :
      (update : ℤ → Error ⊎ ℤ) (store : Store) {out : Returned ℤ × Store}
      → exec_scale fl readings update scaled scale behavor store ≡ ok out
      → Records readings behavor IsScaling (histories store) (histories out.1)
  unfolding exec_scale
  exec_scale-Records update store h =
      exec_revised-Records (revise_records fl readings behavor scaled scale.spec_replicas store)
        update store h

same_round : {a b : Round} → ok a ≡ ok b → histories (store_of b) ≡ histories (store_of a)
same_round h = ap (λ (x : Round). histories (store_of x)) (sym (ok-inj h))

module _ {F : Type 0} (fl : Float F) (c : CalculateHandle F) (client : ScaleClient)
    (readings : Readings) (object : Houmao) (IsScaling : ℤ → ℤ → Type 0) where
  conclude-histories :
      (choice : Choice) (current : ℤ) (outcome : Returned ℤ × Store) {round : Round}
      → conclude fl c client readings object choice current outcome ≡ ok round
      → histories (store_of round) ≡ histories outcome.1
  unfolding conclude store_of
  conclude-histories choice current ((desired, failure), store) h =
      let (sent, _, h2) =
        >>=-eq-ok
          (update_status client.patch object store.origin_replicas
            (result_of readings.result current desired choice))
          _ h in
      same_round h2

  apply_choice-Records :
      (chosen : Result Choice) (scale : Scale) (store : Store) {round : Round}
      → ((r : Choice)
          → chosen ≡ ok r
          → r.replicas ≢ scale.spec_replicas
          → IsScaling scale.spec_replicas r.replicas)
      → apply_choice fl c client readings chosen object scale store ≡ ok round
      → Records readings object.spec.behavor IsScaling
          (histories store)
          (histories (store_of round))
  unfolding apply_choice store_of
  apply_choice-Records (panic p) scale store kind h = absurd (ground arith)
  apply_choice-Records (err e) scale store kind h = inl (same_round h)
  apply_choice-Records (ok choice) scale store {round} kind h =
      elim (Bool-cases (eqb_ℤ choice.replicas scale.spec_replicas)) [
        | inl same ↦ inl (same_round (rw same at h))
        | inr differs ↦
            let h1 : (exec_scale fl readings client.update_scale choice.replicas scale
                    object.spec.behavor store
                  >>= conclude fl c client readings object choice scale.spec_replicas)
                ≡ ok round =
              ground arith in
            let (outcome, executed, concluded) =
              >>=-eq-ok
                (exec_scale fl readings client.update_scale choice.replicas scale
                  object.spec.behavor store)
                _ h1 in
            subst (λ x. Records readings object.spec.behavor IsScaling (histories store) x)
              (sym (conclude-histories choice scale.spec_replicas outcome concluded))
              (exec_scale-Records fl readings choice.replicas scale object.spec.behavor IsScaling
                (kind choice refl (λ same. ground arith)) client.update_scale store executed)
      ]

  scale_object-Records :
      (got : Result Scale) (store : Store) {round : Round}
      → ((scale : Scale) (r : Choice)
          → got ≡ ok scale
          → calculate fl c client.parse_selector object scale ≡ ok r
          → r.replicas ≢ scale.spec_replicas
          → IsScaling scale.spec_replicas r.replicas)
      → scale_object fl c client readings got object store ≡ ok round
      → Records readings object.spec.behavor IsScaling
          (histories store)
          (histories (store_of round))
  unfolding scale_object store_of
  scale_object-Records (panic p) store kind h = absurd (ground arith)
  scale_object-Records (err f) store kind h = inl (same_round h)
  scale_object-Records (ok scale) store kind h =
      apply_choice-Records (calculate fl c client.parse_selector object scale) scale
        (record store { origin_replicas = scale.spec_replicas })
        (λ r chosen differs. kind scale r refl chosen differs) h

  pub detect_and_scale-Records :
      (store : Store) {round : Round}
      → ((scale : Scale) (r : Choice)
          → IsScaleOf fl c client readings object scale
          → calculate fl c client.parse_selector object scale ≡ ok r
          → r.replicas ≢ scale.spec_replicas
          → IsScaling scale.spec_replicas r.replicas)
      → detect_and_scale fl c client readings object store ≡ ok round
      → Records readings object.spec.behavor IsScaling
          (histories store)
          (histories (store_of round))
  unfolding detect_and_scale store_of
  detect_and_scale-Records store {round} kind h = elim (Bool-cases (client.is_blank object)) [
    | inl blank ↦ inl (same_round (rw blank at h))
    | inr full ↦
        elim (Option-cases (client.parse_group_version object.spec.scale_target_ref.api_version)) [
          | inr (f, failed) ↦ inl (same_round (rw (full, failed) at h))
          | inl parsed ↦
              scale_object-Records
                (get_scale_for_target client object.spec.scale_target_ref.name object.namespace)
                store {round = round} kind (rw (full, parsed) at h)
        ]
  ]
