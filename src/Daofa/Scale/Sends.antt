-- ===== src/Daofa/Scale/Sends.antt =====
-- What exactly a round of `detectAndScale` of pkg/zaohua/daofa/zaohua.go sends, if it comes to its end.
use sunwukong.Base.{
  String, ◌≡◌, refl, sym, ap, ◌∙◌, inl, inr, false, Option, some, List, [], ◌∷◌, ◌++◌, arith,
  str_eq, Error, ◌⊎◌, Result, ok, ok-inj, err, panic, >>=-eq-ok, Bool-cases, Option-cases,
}
use mathlib.Core.List.{append-nil}
use sunwukong.Base.Int.{ℤ, eqb_ℤ}
use sunwukong.Float.{Float}
use sunwukong.Kube.Autoscaling.{Behavior, Scale}
use sunwukong.Houmao.{Houmao}
use sunwukong.Daofa.Records.{RecommendationRecord}
use sunwukong.Daofa.Behavior.Errors.{NeverErrs, revise_with_behavor-NeverErrs}
use sunwukong.Daofa.Cluster.{CalculateHandle}
use sunwukong.Daofa.Calculate.{Choice, calculate}
use sunwukong.Daofa.Scale.{
  get_scale_for_target, Store, Readings, revise_records, exec_revised, exec_scale, Round,
  apply_choice, scale_object, detect_and_scale,
}
use sunwukong.Daofa.Scale.Effect.{store_of, record_event_lem, conclude-updates}
use sunwukong.Daofa.Autoscaler.{World, handle_at, list_of, news, due_of, due}

module _ {F : Type 0} (fl : Float F) (readings : Readings) where
  revise_records-NeverErrs :
      (behavor : Behavior) (scaled current : ℤ) (store : Store)
      → NeverErrs (revise_records fl readings behavor scaled current store)
  unfolding revise_records
  revise_records-NeverErrs behavor scaled current store e = λ bad. ground (
    arith,
    revise_with_behavor-NeverErrs fl readings.stabilization readings.limits scaled current
        (some behavor) store.recommendation_records store.scale_up_events e,
    revise_with_behavor-NeverErrs fl readings.stabilization readings.limits scaled current
        (some behavor) store.recommendation_records store.scale_down_events e,
  )

  exec_revised-updates :
      (revised : Result (List RecommendationRecord)) (update : ℤ → Error ⊎ ℤ) (scaled : ℤ)
      (scale : Scale) (behavor : Behavior) (store : Store) {r : ℤ} {e : Option Error}
      {store' : Store}
      → NeverErrs revised
      → exec_revised fl readings revised update scaled scale behavor store ≡ ok ((r, e), store')
      → store'.updates ≡ store.updates ++ (scaled ∷ [])
  unfolding exec_revised
  exec_revised-updates (ok records) update scaled scale behavor store calm h =
      (record_event_lem fl readings scaled scale behavor (update scaled) _ h).0
  exec_revised-updates (err f) update scaled scale behavor store calm h = absurd (calm f refl)
  exec_revised-updates (panic p) update scaled scale behavor store calm h = absurd (ground arith)

  -- When `execScale` returns, it has sent the update: the revision has no error to return early with.
  pub exec_scale-updates :
      (update : ℤ → Error ⊎ ℤ) (scaled : ℤ) (scale : Scale) (behavor : Behavior) (store : Store)
      {r : ℤ} {e : Option Error} {store' : Store}
      → exec_scale fl readings update scaled scale behavor store ≡ ok ((r, e), store')
      → store'.updates ≡ store.updates ++ (scaled ∷ [])
  unfolding exec_scale
  exec_scale-updates update scaled scale behavor store h =
      exec_revised-updates (revise_records fl readings behavor scaled scale.spec_replicas store)
        update scaled scale behavor store
        (revise_records-NeverErrs behavor scaled scale.spec_replicas store) h

-- No update was sent.
abbrev Unsent : Store → Round → Type 0
Unsent store round = (store_of round).updates ≡ store.updates ++ []

none_sent :
    (store : Store) {a b : Round}
    → (store_of a).updates ≡ store.updates
    → ok a ≡ ok b
    → Unsent store b
none_sent store same h =
    ap (λ (x : Round). Store.updates (store_of x)) (sym (ok-inj h))
    ∙ (same ∙ sym (append-nil store.updates))

module _ {F : Type 0} (fl : Float F) (c : CalculateHandle F) (w : World) (object : Houmao) where
  apply_choice-sends :
      (chosen : Result Choice) (scale : Scale) (store : Store) {round : Round}
      → apply_choice fl (handle_at fl c w) w.client w.readings chosen object scale store ≡ ok round
      → (store_of round).updates ≡ store.updates ++ list_of (news scale chosen)
  unfolding apply_choice store_of news
  apply_choice-sends (panic p) scale store h = absurd (ground arith)
  apply_choice-sends (err e) scale store h = none_sent store refl h
  apply_choice-sends (ok choice) scale store {round} h =
      elim (Bool-cases (eqb_ℤ choice.replicas scale.spec_replicas)) [
        | inl same ↦ rw same (none_sent store refl (rw same at h))
        | inr differs ↦
            let (((r, e), after), e1, h2) =
              >>=-eq-ok
                (exec_scale fl w.readings w.client.update_scale choice.replicas scale
                  object.spec.behavor store)
                _ (rw differs at h) in
            rw differs (
              conclude-updates fl (handle_at fl c w) w.client w.readings object choice
                scale.spec_replicas ((r, e), after) h2
              ∙ exec_scale-updates fl w.readings w.client.update_scale choice.replicas scale
                  object.spec.behavor store e1)
      ]

  scale_object-sends :
      (got : Result Scale) (store : Store) {round : Round}
      → scale_object fl (handle_at fl c w) w.client w.readings got object store ≡ ok round
      → (store_of round).updates ≡ store.updates ++ list_of (due_of fl c w object got)
  unfolding scale_object store_of due_of
  scale_object-sends (panic p) store h = absurd (ground arith)
  scale_object-sends (err f) store h = none_sent store refl h
  scale_object-sends (ok scale) store h =
      apply_choice-sends (calculate fl (handle_at fl c w) w.client.parse_selector object scale)
        scale (record store { origin_replicas = scale.spec_replicas }) h

  -- A round that comes to its end has sent what is due in any mode that is not passive, and no more.
  pub detect_and_scale-sends :
      (mode : String) (store : Store) {round : Round}
      → str_eq mode "Beidong" ≡ false
      → detect_and_scale fl (handle_at fl c w) w.client w.readings object store ≡ ok round
      → (store_of round).updates ≡ store.updates ++ list_of (due fl c mode w object)
  unfolding detect_and_scale store_of due
  detect_and_scale-sends mode store {round} active h =
      rw active (elim (Bool-cases (w.client.is_blank object)) [
        | inl blank ↦ rw blank (none_sent store refl (rw blank at h))
        | inr full ↦
            elim (Option-cases
              (w.client.parse_group_version object.spec.scale_target_ref.api_version)) [
                | inr (f, failed) ↦
                    rw (full, failed) (none_sent store refl (rw (full, failed) at h))
                | inl parsed ↦
                    rw (full, parsed)
                      (scale_object-sends
                        (get_scale_for_target w.client object.spec.scale_target_ref.name
                          object.namespace)
                        store (rw (full, parsed) at h))
              ]
      ])
