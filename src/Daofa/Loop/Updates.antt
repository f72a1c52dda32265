-- ===== src/Daofa/Loop/Updates.antt =====
-- What a run of the loop of pkg/zaohua/daofa/zaohua.go sends.
use mathlib.Core.List.{append_assoc, append-nil}
use sunwukong.Base.{
  String, ℕ, ◌+◌, ◌≤◌, ◌≡◌, refl, sym, ap, ◌∙◌, inl, inr, arith, str_eq, some, List, [], ◌∷◌, ◌++◌,
  length, length-append, All, All-append, Result, ok, Bool-cases,
}
use sunwukong.Base.Int.{ℤ, ◌≤ℤ◌}
use sunwukong.Float.{Float}
use sunwukong.Houmao.{Houmao}
use sunwukong.Daofa.Cluster.{CalculateHandle}
use sunwukong.Daofa.Scale.{Store, Round}
use sunwukong.Daofa.Scale.Effect.{store_of, detect_and_scale_bounds}
use sunwukong.Daofa.Loop.{Loop, round_of, Own, Step, Steps}
use sunwukong.Daofa.Autoscaler.{World, handle_at}
use sunwukong.Daofa.Loop.Worlds.{detect_at, Run, run_of}

-- The rounds that a step begins, and those of a run.
abbrev own_rounds :
    {detect : Houmao → Store → Result Round} {mode : String} {s t : Loop} → Own detect mode s t → ℕ
own_rounds (Own.wait _ store p e) = 1
own_rounds (Own.finish _ failure store object p e same) = 1
own_rounds (Own.wake _ n p e) = 0
own_rounds (Own.load _ n p e) = 0
own_rounds (Own.next _ p e) = 0
own_rounds (Own.done _ p) = 0

abbrev step_rounds :
    {detect : Houmao → Store → Result Round} {mode : String} {s t : Loop} → Step detect mode s t → ℕ
step_rounds (Step.own _ _ own) = own_rounds own
step_rounds (Step.write _ houmao) = 0
step_rounds (Step.send _ n e) = 0

abbrev pub rounds :
    {F : Type 0} {fl : Float F} {c : CalculateHandle F} {mode : String} {s t : Loop}
    → Run fl c mode s t
    → ℕ
rounds (Run.stay s) = 0
rounds (Run.then s t u w step rest) = step_rounds step + rounds rest

module _ (low high : ℤ) where
  -- The limits of the object lie between the two numbers.
  abbrev pub IsLimited : Houmao → Type 0
  IsLimited object =
      (m : ℤ) × (object.spec.min_replicas ≡ some m)
      × (low ≤ℤ m)
      × (m ≤ℤ object.spec.max_replicas)
      × (object.spec.max_replicas ≤ℤ high)

  -- So do those of every object that the loop works on during the run.
  abbrev pub Limits :
      {F : Type 0} {fl : Float F} {c : CalculateHandle F} {mode : String} {s t : Loop}
      → Run fl c mode s t
      → Type 0
  Limits (Run.stay s) = Unit
  Limits (Run.then s t u w step rest) = IsLimited s.object × Limits rest

  -- The updates after `old`: at most `n`, and each between the two numbers.
  pub record Sends (n : ℕ) (old new : List ℤ) : Type 0 where
    pub sent : List ℤ
    pub order : new ≡ old ++ sent
    pub few : length sent ≤ n
    pub within : All (λ k. (low ≤ℤ k) × (k ≤ℤ high)) sent

  Sends-none : (n : ℕ) {old new : List ℤ} → new ≡ old → Sends n old new
  Sends-none n {old} e = record {
    sent = [];
    order = e ∙ sym (append-nil old);
    few = omega arith;
    within = tt;
  }

  Sends-trans : {n k : ℕ} {a b c : List ℤ} → Sends n a b → Sends k b c → Sends (n + k) a c
  Sends-trans {n} {k} {a} p q = record {
    sent = p.sent ++ q.sent;
    order = q.order ∙ (ap (λ xs. xs ++ q.sent) p.order ∙ append_assoc a p.sent q.sent);
    few = omega (arith, length-append p.sent q.sent, p.few, q.few);
    within = All-append _ p.sent q.sent p.within q.within;
  }

  module _ {F : Type 0} (fl : Float F) (c : CalculateHandle F) (mode : String) where
    round_of-Sends :
        (w : World) (object : Houmao) (store : Store) {round : Round}
        → IsLimited object
        → round_of (detect_at fl c w) mode object store ≡ ok round
        → Sends 1 store.updates (store_of round).updates
    unfolding round_of store_of
    round_of-Sends w object store (m, has, lower, order, upper) run =
        elim (Bool-cases (str_eq mode "Beidong")) [
          | inl passive ↦ Sends-none 1 (ground arith)
          | inr active ↦
              elim (detect_and_scale_bounds fl (handle_at fl c w) w.client w.readings object store
                has order (rw active at run)) [
                  | inl same ↦ Sends-none 1 same
                  | inr (n, (above, below), new) ↦ record {
                    sent = n ∷ [];
                    order = new;
                    few = omega arith;
                    within = ((omega arith, omega arith), tt);
                  }
                ]
        ]

    Own-Sends :
        (w : World) (s t : Loop) (own : Own (detect_at fl c w) mode s t)
        → IsLimited s.object
        → Sends (own_rounds own) s.store.updates t.store.updates
    unfolding store_of
    Own-Sends w s _ (Own.wait _ store p e) limited = round_of-Sends w s.object s.store limited e
    Own-Sends w s _ (Own.finish _ failure store object p e same) limited =
        round_of-Sends w s.object s.store limited e
    Own-Sends w s _ (Own.wake _ n p e) limited = Sends-none 0 refl
    Own-Sends w s _ (Own.load _ n p e) limited = Sends-none 0 refl
    Own-Sends w s _ (Own.next _ p e) limited = Sends-none 0 refl
    Own-Sends w s _ (Own.done _ p) limited = Sends-none 0 refl

    Step-Sends :
        (w : World) (s t : Loop) (step : Step (detect_at fl c w) mode s t)
        → IsLimited s.object
        → Sends (step_rounds step) s.store.updates t.store.updates
    Step-Sends w s t (Step.own _ _ own) limited = Own-Sends w s t own limited
    Step-Sends w s _ (Step.write _ houmao) limited = Sends-none 0 refl
    Step-Sends w s _ (Step.send _ n e) limited = Sends-none 0 refl

    -- However the loop runs and is restarted, and whatever the cluster answers from step to step, if
    -- the limits of each object that it works on lie between two numbers, then it sends at most one
    -- update of the scale for each round that it begins, and each with a number of replicas between
    -- the two.
    pub Run-Sends :
        (s t : Loop) (run : Run fl c mode s t)
        → Limits run
        → Sends (rounds run) s.store.updates t.store.updates
    Run-Sends s _ (Run.stay _) limits = Sends-none 0 refl
    Run-Sends s u (Run.then _ t _ w step rest) (here, limits) =
        Sends-trans (Step-Sends w s t step here) (Run-Sends t u rest limits)

    -- So it is for a loop that the cluster always answers alike.
    pub Steps-Sends :
        (w : World) (s t : Loop) (run : Steps (detect_at fl c w) mode s t)
        → Limits (run_of fl c mode w run)
        → Sends (rounds (run_of fl c mode w run)) s.store.updates t.store.updates
    Steps-Sends w s t run limits = Run-Sends s t (run_of fl c mode w run) limits
