-- ===== src/Daofa/Loop/Reloads.antt =====
-- A restart of the loop of pkg/zaohua/daofa/zaohua.go while its object is ready.
use sunwukong.Base.{
  String, ℕ, suc, ◌≡◌, ◌≢◌, refl, inl, inr, false, arith, str_eq, Error, Option, none, Result, ok,
  err, panic, ◌>>=◌, >>=-eq-ok, Bool-cases,
}
use sunwukong.Base.Int.{ℤ, eqb_ℤ}
use sunwukong.Float.{Float}
use sunwukong.Kube.Autoscaling.{Scale}
use sunwukong.Houmao.{Houmao}
use sunwukong.Daofa.Cluster.{CalculateHandle}
use sunwukong.Daofa.Calculate.{Choice, calculate}
use sunwukong.Daofa.Scale.{
  Store, Readings, Returned, ScaleClient, exec_scale, result_of, update_status,
  get_scale_for_target, Round, waits, returns, conclude, apply_choice, scale_object,
  detect_and_scale,
}
use sunwukong.Daofa.Scale.Total.{IsReady, detect_and_scale-IsOk}
use sunwukong.Daofa.Loop.{starting, Loop, round_of}
use sunwukong.Daofa.Loop.Progress.{Eventually, Loads, restart-Loads}

-- The round does not wait at the channel.
abbrev NeverWaits : Result Round → Type 0
NeverWaits round = (store : Store) → round ≢ ok (waits store)

ended :
    {m : Result Round} (round : Round)
    → m ≡ ok round
    → NeverWaits m
    → (failure : Option Error) × (store : Store) × (m ≡ ok (returns failure store))
ended (waits store) run never = absurd (never store run)
ended (returns failure store) run never = (failure, store, run)

module _ {F : Type 0} (fl : Float F) (c : CalculateHandle F) (client : ScaleClient)
    (readings : Readings) (object : Houmao) where
  conclude-NeverWaits :
      (choice : Choice) (current : ℤ) (outcome : Returned ℤ × Store)
      → NeverWaits (conclude fl c client readings object choice current outcome)
  unfolding conclude
  conclude-NeverWaits choice current ((desired, failure), store) kept bad =
      let (sent, _, h) =
        >>=-eq-ok
          (update_status client.patch object store.origin_replicas
            (result_of readings.result current desired choice))
          _ bad in
      ground arith

  apply_choice-NeverWaits :
      (chosen : Result Choice) (scale : Scale) (store : Store)
      → NeverWaits (apply_choice fl c client readings chosen object scale store)
  unfolding apply_choice
  apply_choice-NeverWaits (panic p) scale store kept bad = ground arith
  apply_choice-NeverWaits (err e) scale store kept bad = ground arith
  apply_choice-NeverWaits (ok choice) scale store kept bad =
      elim (Bool-cases (eqb_ℤ choice.replicas scale.spec_replicas)) [
        | inl same ↦ ground arith
        | inr differs ↦
            let run : (exec_scale fl readings client.update_scale choice.replicas scale
                    object.spec.behavor store
                  >>= conclude fl c client readings object choice scale.spec_replicas)
                ≡ ok (waits kept) =
              ground arith in
            let (outcome, _, h) =
              >>=-eq-ok
                (exec_scale fl readings client.update_scale choice.replicas scale
                  object.spec.behavor store)
                _ run in
            conclude-NeverWaits choice scale.spec_replicas outcome kept h
      ]

  scale_object-NeverWaits :
      (got : Result Scale) (store : Store)
      → NeverWaits (scale_object fl c client readings got object store)
  unfolding scale_object
  scale_object-NeverWaits (panic p) store kept bad = ground arith
  scale_object-NeverWaits (err e) store kept bad = ground arith
  scale_object-NeverWaits (ok scale) store kept bad =
      apply_choice-NeverWaits (calculate fl c client.parse_selector object scale) scale
        (record store { origin_replicas = scale.spec_replicas }) kept bad

  detect_and_scale-NeverWaits :
      (store : Store)
      → client.is_blank object ≡ false
      → NeverWaits (detect_and_scale fl c client readings object store)
  unfolding detect_and_scale
  detect_and_scale-NeverWaits store full kept bad =
      let scaled =
        scale_object-NeverWaits
          (get_scale_for_target client object.spec.scale_target_ref.name object.namespace) store
          kept in
      ground (arith, scaled)

  detect_and_scale-returns :
      (store : Store)
      → client.is_blank object ≡ false
      → IsReady c client object
      → (failure : Option Error) × (store' : Store) × (detect_and_scale fl c client readings object
            store
          ≡ ok (returns failure store'))
  detect_and_scale-returns store full ready =
      let (round, run) = detect_and_scale-IsOk fl c client readings object ready store in
      ended round run (detect_and_scale-NeverWaits store full)

module _ {F : Type 0} (fl : Float F) (c : CalculateHandle F) (client : ScaleClient)
    (readings : Readings) (mode : String) where
  -- If a restart waits at the channel while the loop is about to begin a round with an object that
  -- is not blank, and is such that the round ends with a value (`IsReady`), then, unless another
  -- restart changes it before, the loop comes to work on what `HoumaoObject` holds, or it returns.
  pub ready_restart-Loads :
      (s : Loop) {n : ℕ}
      → client.is_blank s.object ≡ false
      → IsReady c client s.object
      → s.phase ≡ starting
      → s.waiting ≡ suc n
      → Eventually (detect_and_scale fl c client readings) mode (Loads s.houmao_object) s
  unfolding round_of
  ready_restart-Loads s full ready p w = elim (Bool-cases (str_eq mode "Beidong")) [
    | inl passive ↦
        restart-Loads (detect_and_scale fl c client readings) mode s {failure = none}
          {store = s.store} p w (rw passive refl)
    | inr active ↦
        let (failure, store, run) =
          detect_and_scale-returns fl c client readings s.object s.store full ready in
        restart-Loads (detect_and_scale fl c client readings) mode s {failure = failure}
          {store = store} p w (rw active run)
  ]
