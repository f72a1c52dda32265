-- ===== src/Daofa/Scale/Effect.antt =====
-- What reaches the API server from `execScale` and from a round of `detectAndScale`.
use sunwukong.Base.{
  ◌∙◌, ◌≡◌, ◌≢◌, refl, ◌⊎◌, inl, inr, Option, none, some, List, [], ◌∷◌, ◌++◌, arith, Error, Panic,
  Result, ok, err, panic, ◌>>=◌, >>=-eq-ok, Bool-cases, Option-cases,
}
use sunwukong.Base.Int.{ℤ, ◌≤ℤ◌, eqb_ℤ}
use sunwukong.Float.{Float}
use sunwukong.Kube.Autoscaling.{Behavior, Scale}
use sunwukong.Houmao.{Houmao}
use sunwukong.Daofa.Records.{RecommendationRecord}
use sunwukong.Daofa.Events.{storage_scale_event}
use sunwukong.Daofa.Cluster.{CalculateHandle}
use sunwukong.Daofa.Calculate.{Choice, calculate}
use sunwukong.Daofa.Calculate.Greatest.{calculate_bounds}
use sunwukong.Daofa.Scale.{
  get_scale_for_target, Store, Readings, Returned, revise_records, record_event, exec_revised,
  exec_scale, ScaleClient, Round, waits, returns, result_of, conclude, update_status, apply_choice,
  scale_object, detect_and_scale,
}

Result-cases :
    {A : Type 0} (r : Result A)
    → ((a : A) × (r ≡ ok a)) ⊎ (((e : Error) × (r ≡ err e)) ⊎ ((p : Panic) × (r ≡ panic p)))
Result-cases (ok a) = inl (a, refl)
Result-cases (err e) = inr (inl (e, refl))
Result-cases (panic p) = inr (inr (p, refl))

-- What an outcome says of the updates that were sent: `AtMostOnce` of the number `n`, after `old`.
abbrev pub AtMostOnce : ℤ → List ℤ → List ℤ → Type 0
AtMostOnce n old new = (new ≡ old) ⊎ (new ≡ old ++ (n ∷ []))

module _ {F : Type 0} (fl : Float F) (readings : Readings) (scaled : ℤ) (scale : Scale)
    (behavor : Behavior) where
  pub record_event_lem :
      (answer : Error ⊎ ℤ) (store : Store) {r : ℤ} {e : Option Error} {store' : Store}
      → record_event fl readings answer scaled scale behavor store ≡ ok ((r, e), store')
      → (store'.updates ≡ store.updates) × (e ≡ none → answer ≡ inr r)
  unfolding record_event
  record_event_lem (inl f) store h = ground arith
  record_event_lem (inr answered) store h =
      let ((ups, downs), _, h2) =
        >>=-eq-ok
          (storage_scale_event readings.outdated readings.event (some behavor) scale.spec_replicas
            scaled store.scale_up_events store.scale_down_events)
          _ h in
      ground arith

  exec_revised_lem :
      (revised : Result (List RecommendationRecord)) (update : ℤ → Error ⊎ ℤ) (store : Store)
      {r : ℤ} {e : Option Error} {store' : Store}
      → exec_revised fl readings revised update scaled scale behavor store ≡ ok ((r, e), store')
      → AtMostOnce scaled store.updates store'.updates
        × (e ≡ none → (update scaled ≡ inr r) × (store'.updates ≡ store.updates ++ (scaled ∷ [])))
  unfolding exec_revised
  exec_revised_lem (ok records) update store h =
      let (sent, good) = record_event_lem (update scaled) _ h in (inr sent, λ e. (good e, sent))
  exec_revised_lem (err f) update store h = (inl (ground arith), λ e. absurd (ground arith))
  exec_revised_lem (panic p) update store h = absurd (ground arith)

  -- When `execScale` returns, either no update was sent or the one update that was sent has the
  -- number that was asked for; if it returns no error, the update was sent and went well, and what is
  -- returned is the number of replicas in the server's answer to it. The rates of the behavior have
  -- no part in it.
  pub exec_scale_sent :
      (update : ℤ → Error ⊎ ℤ) (store : Store) {r : ℤ} {e : Option Error} {store' : Store}
      → exec_scale fl readings update scaled scale behavor store ≡ ok ((r, e), store')
      → AtMostOnce scaled store.updates store'.updates
        × (e ≡ none → (update scaled ≡ inr r) × (store'.updates ≡ store.updates ++ (scaled ∷ [])))
  unfolding exec_scale
  exec_scale_sent update store h =
      exec_revised_lem (revise_records fl readings behavor scaled scale.spec_replicas store) update
        store h

-- The package's variables after a round.
unfoldable pub store_of : Round → Store
store_of (waits store) = store
store_of (returns e store) = store

-- No update was sent after `old`, or one with a number of the kind.
abbrev pub Updates : (ℤ → Type 0) → List ℤ → List ℤ → Type 0
Updates IsSent old new = (new ≡ old) ⊎ ((n : ℤ) × IsSent n × (new ≡ old ++ (n ∷ [])))

module _ {F : Type 0} (fl : Float F) (c : CalculateHandle F) (client : ScaleClient)
    (readings : Readings) (object : Houmao) where
  -- The scale that the API server answers with for the target of the object.
  abbrev pub IsScaleOf : Scale → Type 0
  IsScaleOf scale =
      get_scale_for_target client object.spec.scale_target_ref.name object.namespace ≡ ok scale

  -- No update was sent, or one with a number from `m` to the greatest of the spec.
  abbrev pub UpdatesWithin : ℤ → List ℤ → List ℤ → Type 0
  UpdatesWithin m = Updates (λ n. (m ≤ℤ n) × (n ≤ℤ object.spec.max_replicas))

  pub conclude-updates :
      (choice : Choice) (current : ℤ) (outcome : Returned ℤ × Store) {round : Round}
      → conclude fl c client readings object choice current outcome ≡ ok round
      → (store_of round).updates ≡ (outcome.1).updates
  unfolding conclude store_of
  conclude-updates choice current ((desired, failure), store) h =
      let (sent, _, h2) =
        >>=-eq-ok
          (update_status client.patch object store.origin_replicas
            (result_of readings.result current desired choice))
          _ h in
      ground arith

  module _ (IsSent : ℤ → Type 0) where
    apply_choice-updates :
        (chosen : Result Choice) (scale : Scale) (store : Store) {round : Round}
        → ((r : Choice) → chosen ≡ ok r → r.replicas ≢ scale.spec_replicas → IsSent r.replicas)
        → apply_choice fl c client readings chosen object scale store ≡ ok round
        → Updates IsSent store.updates (store_of round).updates
    unfolding apply_choice store_of
    apply_choice-updates (panic p) scale store kind h = absurd (ground arith)
    apply_choice-updates (err e) scale store kind h = inl (ground arith)
    apply_choice-updates (ok choice) scale store {round} kind h =
        elim (Bool-cases (eqb_ℤ choice.replicas scale.spec_replicas)) [
          | inl same ↦ inl (ground arith)
          | inr differs ↦
              let h1 : (exec_scale fl readings client.update_scale choice.replicas scale
                      object.spec.behavor store
                    >>= conclude fl c client readings object choice scale.spec_replicas)
                  ≡ ok round =
                ground arith in
              let (((r, e), after), e1, h2) =
                >>=-eq-ok
                  (exec_scale fl readings client.update_scale choice.replicas scale
                    object.spec.behavor store)
                  _ h1 in
              let (once, _) =
                exec_scale_sent fl readings choice.replicas scale object.spec.behavor
                  client.update_scale store e1 in
              let kept = conclude-updates choice scale.spec_replicas ((r, e), after) h2 in
              elim once [
                | inl same ↦ inl (kept ∙ same)
                | inr one ↦
                    inr (choice.replicas, kind choice refl (λ same. ground arith), kept ∙ one)
              ]
        ]

    scale_object-updates :
        (got : Result Scale) (store : Store) {round : Round}
        → ((scale : Scale) (r : Choice)
            → got ≡ ok scale
            → calculate fl c client.parse_selector object scale ≡ ok r
            → r.replicas ≢ scale.spec_replicas
            → IsSent r.replicas)
        → scale_object fl c client readings got object store ≡ ok round
        → Updates IsSent store.updates (store_of round).updates
    unfolding scale_object store_of
    scale_object-updates (panic p) store kind h = absurd (ground arith)
    scale_object-updates (err f) store kind h = inl (ground arith)
    scale_object-updates (ok scale) store kind h =
        apply_choice-updates (calculate fl c client.parse_selector object scale) scale
          (record store { origin_replicas = scale.spec_replicas })
          (λ r chosen differs. kind scale r refl chosen differs) h

    pub detect_and_scale-updates :
        (store : Store) {round : Round}
        → ((scale : Scale) (r : Choice)
            → IsScaleOf scale
            → calculate fl c client.parse_selector object scale ≡ ok r
            → r.replicas ≢ scale.spec_replicas
            → IsSent r.replicas)
        → detect_and_scale fl c client readings object store ≡ ok round
        → Updates IsSent store.updates (store_of round).updates
    unfolding detect_and_scale store_of
    detect_and_scale-updates store {round} kind h = elim (Bool-cases (client.is_blank object)) [
      | inl blank ↦ inl (ground arith)
      | inr full ↦
          elim (Option-cases
            (client.parse_group_version object.spec.scale_target_ref.api_version)) [
              | inr (f, failed) ↦ inl (ground arith)
              | inl parsed ↦
                  scale_object-updates
                    (get_scale_for_target client object.spec.scale_target_ref.name object.namespace)
                    store {round = round} kind (ground arith)
            ]
    ]

  -- A round of `detectAndScale` sends at most one update of the scale; if the least number of the
  -- spec is at most the greatest, the number sent lies between the two.
  pub detect_and_scale_bounds :
      (store : Store) {m : ℤ} {round : Round}
      → object.spec.min_replicas ≡ some m
      → m ≤ℤ object.spec.max_replicas
      → detect_and_scale fl c client readings object store ≡ ok round
      → UpdatesWithin m store.updates (store_of round).updates
  detect_and_scale_bounds store e le h =
      detect_and_scale-updates _ store
        (λ scale r got chosen differs.
          calculate_bounds fl c client.parse_selector object scale e le chosen)
        h
