-- ===== src/Daofa/Loop/Refines.antt =====
-- The loop of pkg/zaohua/daofa/zaohua.go beside what is due at each of its rounds.
use mathlib.Core.Path.{subst}
use mathlib.Core.List.{append_assoc, append-nil}
use sunwukong.Base.{
  String, ◌≡◌, refl, sym, ap, ◌∙◌, inl, inr, ◌||◌, some, List, [], ◌∷◌, ◌++◌, arith, Result, ok,
  ok-inj, err, panic, str_eq, Bool-cases, Option-cases,
}
use sunwukong.Base.Int.{ℤ, eqb_ℤ}
use sunwukong.Float.{Float}
use sunwukong.Kube.Autoscaling.{Scale}
use sunwukong.Houmao.{Houmao}
use sunwukong.Daofa.Cluster.{CalculateHandle}
use sunwukong.Daofa.Calculate.{Choice, calculate}
use sunwukong.Daofa.Scale.{Store, Round, get_scale_for_target}
use sunwukong.Daofa.Scale.Effect.{store_of, Updates, detect_and_scale-updates}
use sunwukong.Daofa.Scale.Sends.{detect_and_scale-sends}
use sunwukong.Daofa.Calculate.Unique.{IsDecision, calculate-IsDecision, IsDecision-unique}
use sunwukong.Daofa.Loop.{Loop, round_of, Own, Step}
use sunwukong.Daofa.Loop.Worlds.{detect_at, Run}
use sunwukong.Daofa.Autoscaler.{World, handle_at, list_of, IsDue, news, due_of, due, all_due}

module _ {F : Type 0} (fl : Float F) (c : CalculateHandle F) (mode : String) where
  pub round_of-IsDue :
      (w : World) (object : Houmao) (store : Store) {round : Round}
      → round_of (detect_at fl c w) mode object store ≡ ok round
      → Updates (IsDue fl c w object) store.updates (store_of round).updates
  unfolding round_of store_of
  round_of-IsDue w object store run = elim (Bool-cases (str_eq mode "Beidong")) [
    | inl passive ↦ inl (ground arith)
    | inr active ↦
        detect_and_scale-updates fl (handle_at fl c w) w.client w.readings object
          (IsDue fl c w object) store
          (λ scale r found chosen changes. record {
            scale = scale;
            choice = r;
            found = found;
            decided =
                calculate-IsDecision fl (handle_at fl c w) w.client.parse_selector object scale
                  chosen;
            number = refl;
            changes = changes;
          })
          (rw active at run)
  ]

  -- The rounds that a step begins: the time of each and the object that it works on.
  abbrev pub attempts_of_own :
      (w : World) {s t : Loop} → Own (detect_at fl c w) mode s t → List (World × Houmao)
  attempts_of_own w (Own.wait s store p e) = (w, s.object) ∷ []
  attempts_of_own w (Own.finish s failure store object p e same) = (w, s.object) ∷ []
  attempts_of_own w (Own.wake s n p e) = []
  attempts_of_own w (Own.load s n p e) = []
  attempts_of_own w (Own.next s p e) = []
  attempts_of_own w (Own.done s p) = []

  abbrev pub attempts_of_step :
      (w : World) {s t : Loop} → Step (detect_at fl c w) mode s t → List (World × Houmao)
  attempts_of_step w (Step.own s t own) = attempts_of_own w own
  attempts_of_step w (Step.write s houmao) = []
  attempts_of_step w (Step.send s n e) = []

  -- The rounds of a run, in order.
  abbrev pub attempts : {s t : Loop} → Run fl c mode s t → List (World × Houmao)
  attempts (Run.stay s) = []
  attempts (Run.then s t u w step run) = attempts_of_step w step ++ attempts run

  round_of-sends :
      (w : World) (object : Houmao) (store : Store) {round : Round}
      → round_of (detect_at fl c w) mode object store ≡ ok round
      → (store_of round).updates ≡ store.updates ++ all_due fl c mode ((w, object) ∷ [])
  unfolding round_of store_of all_due due
  round_of-sends w object store run = elim (Bool-cases (str_eq mode "Beidong")) [
    | inl passive ↦ rw passive (
        ap (λ (x : Round). Store.updates (store_of x)) (sym (ok-inj (rw passive at run)))
        ∙ sym (append-nil store.updates))
    | inr active ↦
        detect_and_scale-sends fl c w object mode store active (rw active at run)
        ∙ ap (λ xs. store.updates ++ xs) (sym (append-nil (list_of (due fl c mode w object))))
  ]

  Own-sends :
      (w : World) (s t : Loop) (own : Own (detect_at fl c w) mode s t)
      → t.store.updates ≡ s.store.updates ++ all_due fl c mode (attempts_of_own w own)
  unfolding store_of all_due
  Own-sends w s _ (Own.wait _ store p e) = round_of-sends w s.object s.store e
  Own-sends w s _ (Own.finish _ failure store object p e same) = round_of-sends w s.object s.store e
  Own-sends w s _ (Own.wake _ n p e) = sym (append-nil s.store.updates)
  Own-sends w s _ (Own.load _ n p e) = sym (append-nil s.store.updates)
  Own-sends w s _ (Own.next _ p e) = sym (append-nil s.store.updates)
  Own-sends w s _ (Own.done _ p) = sym (append-nil s.store.updates)

  Step-sends :
      (w : World) (s t : Loop) (step : Step (detect_at fl c w) mode s t)
      → t.store.updates ≡ s.store.updates ++ all_due fl c mode (attempts_of_step w step)
  unfolding all_due
  Step-sends w s t (Step.own _ _ own) = Own-sends w s t own
  Step-sends w s _ (Step.write _ houmao) = sym (append-nil s.store.updates)
  Step-sends w s _ (Step.send _ n e) = sym (append-nil s.store.updates)

  all_due-append :
      (xs ys : List (World × Houmao))
      → all_due fl c mode (xs ++ ys) ≡ all_due fl c mode xs ++ all_due fl c mode ys
  unfolding all_due
  all_due-append [] ys = refl
  all_due-append ((w, object) ∷ xs) ys =
      ap (λ rest. list_of (due fl c mode w object) ++ rest) (all_due-append xs ys)
      ∙ sym (
          append_assoc (list_of (due fl c mode w object)) (all_due fl c mode xs)
            (all_due fl c mode ys))

  -- What is due is what the metrics and the limits of the object decide on.
  news-IsDue :
      (w : World) (object : Houmao) (scale : Scale) (chosen : Result Choice) {n : ℤ}
      → get_scale_for_target w.client object.spec.scale_target_ref.name object.namespace ≡ ok scale
      → calculate fl (handle_at fl c w) w.client.parse_selector object scale ≡ chosen
      → news scale chosen ≡ some n
      → IsDue fl c w object n
  unfolding news
  news-IsDue w object scale (panic p) found run h = absurd (ground arith)
  news-IsDue w object scale (err e) found run h = absurd (ground arith)
  news-IsDue w object scale (ok choice) {n} found run h =
      elim (Bool-cases (eqb_ℤ choice.replicas scale.spec_replicas)) [
        | inl same ↦ absurd (ground arith)
        | inr differs ↦
            let number : n ≡ choice.replicas = ground arith in
            record {
              scale = scale;
              choice = choice;
              found = found;
              decided =
                  calculate-IsDecision fl (handle_at fl c w) w.client.parse_selector object scale
                    run;
              number = number;
              changes = λ same. ground arith;
            }
      ]

  due_of-IsDue :
      (w : World) (object : Houmao) (got : Result Scale) {n : ℤ}
      → get_scale_for_target w.client object.spec.scale_target_ref.name object.namespace ≡ got
      → due_of fl c w object got ≡ some n
      → IsDue fl c w object n
  unfolding due_of
  due_of-IsDue w object (panic p) found h = absurd (ground arith)
  due_of-IsDue w object (err e) found h = absurd (ground arith)
  due_of-IsDue w object (ok scale) found h =
      news-IsDue w object scale
        (calculate fl (handle_at fl c w) w.client.parse_selector object scale) found refl h

  due-IsDue :
      (w : World) (object : Houmao) (n : ℤ)
      → due fl c mode w object ≡ some n
      → IsDue fl c w object n
  unfolding due
  due-IsDue w object n h = elim (Bool-cases (str_eq mode "Beidong" || w.client.is_blank object)) [
    | inl none_due ↦ absurd (ground arith)
    | inr full ↦
        elim (Option-cases
          (w.client.parse_group_version object.spec.scale_target_ref.api_version)) [
            | inr (f, failed) ↦ absurd (ground arith)
            | inl parsed ↦ due_of-IsDue w object _ refl (rw (full, parsed) at h)
          ]
  ]

  -- At one time one number at most is due for an object.
  IsDue-unique :
      (w : World) (object : Houmao) (n k : ℤ)
      → IsDue fl c w object n
      → IsDue fl c w object k
      → k ≡ n
  IsDue-unique w object n k d e =
      let one : e.scale ≡ d.scale = ok-inj (sym e.found ∙ d.found) in
      let handle = handle_at fl c w in
      let decided =
        subst (λ x. IsDecision fl handle w.client.parse_selector object x e.choice) one e.decided in
      let same =
        IsDecision-unique fl handle w.client.parse_selector object d.scale e.choice d.choice decided
          d.decided in
      e.number ∙ (ap Choice.replicas same ∙ sym d.number)

  due_lem :
      (w : World) (object : Houmao) (n : ℤ)
      → due fl c mode w object ≡ some n
      → IsDue fl c w object n × ((k : ℤ) → IsDue fl c w object k → k ≡ n)
  due_lem w object n h =
      let this = due-IsDue w object n h in (this, λ k. IsDue-unique w object n k this)

  -- However the loop runs, is restarted, and is answered by the cluster from step to step, what it
  -- sends is, in order, exactly what is due at its rounds, each for the object that it works on then;
  -- and a number that is due is the only one that the metrics and the limits of the object decide on,
  -- and one that the scale does not have yet. A round that panics is no part of a run; in those that
  -- end, neither the behavior nor the histories nor the errors of the requests to update and to patch
  -- change what is sent.
  pub Run-refines :
      (s t : Loop) (run : Run fl c mode s t)
      → (t.store.updates ≡ s.store.updates ++ all_due fl c mode (attempts run))
        × ((w : World) (object : Houmao) (n : ℤ)
            → due fl c mode w object ≡ some n
            → IsDue fl c w object n × ((k : ℤ) → IsDue fl c w object k → k ≡ n))
  unfolding all_due
  Run-refines s _ (Run.stay _) = (sym (append-nil s.store.updates), due_lem)
  Run-refines s u (Run.then _ t _ w step run) =
      let here = all_due fl c mode (attempts_of_step w step) in
      let later = all_due fl c mode (attempts run) in
      (
        (Run-refines t u run).0
            ∙ (ap (λ xs. xs ++ later) (Step-sends w s t step)
                ∙ (append_assoc s.store.updates here later
                    ∙ ap (λ xs. s.store.updates ++ xs)
                        (sym (all_due-append (attempts_of_step w step) (attempts run))))),
        due_lem,
      )
