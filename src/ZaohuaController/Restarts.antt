-- ===== src/ZaohuaController/Restarts.antt =====
-- When the controller restarts the loop.
use mathlib.Core.Path.{subst}
use sunwukong.Base.{
  sym, ap, ◌∙◌, if◌then◌else◌, ℕ, suc, ◌-◌, ◌+◌, All, List, [], ◌∷◌, >>=-eq-ok, ok-inj, String, ◌≡◌,
  refl, Bool, true, arith, Result, ok, err, panic, ◌>>=◌, Bool-cases, inl, inr,
}
use sunwukong.Houmao.{HoumaoSpec, Houmao}
use sunwukong.Daofa.Scale.{Store, Round}
use sunwukong.Daofa.Loop.{Loop, reload, Step, Steps}
use sunwukong.ZaohuaController.{Zaohua, restart_zaohua, reconcile_zaohua}

-- If equality finds a spec equal to itself, reconciling twice with the same answer of the API server
-- is reconciling once.
pub reconcile_zaohua_idem :
    (same : HoumaoSpec → HoumaoSpec → Bool) (found : Result Houmao) (z : Zaohua)
    → ((spec : HoumaoSpec) → same spec spec ≡ true)
    → (reconcile_zaohua same found z >>= reconcile_zaohua same found)
      ≡ reconcile_zaohua same found z
unfolding reconcile_zaohua
reconcile_zaohua_idem same (panic p) z reflexive = refl
reconcile_zaohua_idem same (err e) z reflexive = refl
reconcile_zaohua_idem same (ok object) z reflexive =
    elim (Bool-cases (same object.spec z.object_spec)) [
      | inl e ↦ rw (e, e)
      | inr e ↦ rw (e, reflexive)
    ]

-- Reconciliations one after the other, each with what `Get` finds, and the number of restarts that
-- they begin. Before each one the loop has come to some state; only a restart writes `HoumaoObject`.
unfoldable pub reconcile_all :
    (HoumaoSpec → HoumaoSpec → Bool) → List (Loop × Result Houmao) → Zaohua → Result (ℕ × Zaohua)
reconcile_all same [] z = ok (0, z)
reconcile_all same ((loop, found) ∷ turns) z = do
  let met = record loop { houmao_object = z.loop.houmao_object }
  after ← reconcile_zaohua same found (record z { loop = met })
  (restarts, end) ← reconcile_all same turns after
  ok (after.loop.sending - loop.sending + restarts, end)

-- The specs that were found, in order.
abbrev pub specs_of : List (Loop × Result Houmao) → List HoumaoSpec
specs_of [] = []
specs_of ((loop, ok object) ∷ turns) = object.spec ∷ specs_of turns
specs_of ((loop, err e) ∷ turns) = specs_of turns
specs_of ((loop, panic p) ∷ turns) = specs_of turns

-- The last of a spec and those that follow it.
abbrev pub last_spec : HoumaoSpec → List HoumaoSpec → HoumaoSpec
last_spec spec [] = spec
last_spec spec (next ∷ specs) = last_spec next specs

-- How many specs are not the same as the one before.
abbrev pub changes : (HoumaoSpec → HoumaoSpec → Bool) → HoumaoSpec → List HoumaoSpec → ℕ
changes same spec [] = 0
changes same spec (next ∷ specs) =
    let rest = changes same next specs in if same next spec then rest else suc rest

-- What a run of reconciliations from one state to another has come to.
abbrev pub IsFollowed :
    (HoumaoSpec → HoumaoSpec → Bool) → List HoumaoSpec → Zaohua → ℕ × Zaohua → Type 0
IsFollowed same specs z (restarts, end) =
    (end.object_spec ≡ last_spec z.object_spec specs)
    × (restarts ≡ changes same z.object_spec specs)
    × (z.loop.houmao_object.spec ≡ z.object_spec
        → end.loop.houmao_object.spec ≡ last_spec z.object_spec specs)

module _ (same : HoumaoSpec → HoumaoSpec → Bool) (IsUsed : HoumaoSpec → Type 0)
    (sound : (a b : HoumaoSpec) → IsUsed a → IsUsed b → same a b ≡ true → a ≡ b) where
  -- If equality finds only equal specs equal among those that are in use, and the controller's spec
  -- and those that are found are in use, then, whatever the loop does between the
  -- reconciliations, the controller has after them the last spec that was found, has begun as many
  -- restarts as specs were found that are not the same as the one before, the first of all being
  -- the one that it had, and `HoumaoObject` has the last spec too if it had the controller's before.
  pub reconcile_all_lem :
      (turns : List (Loop × Result Houmao)) (z : Zaohua) {out : ℕ × Zaohua}
      → IsUsed z.object_spec
      → All IsUsed (specs_of turns)
      → reconcile_all same turns z ≡ ok out
      → IsFollowed same (specs_of turns) z out
  unfolding reconcile_all reconcile_zaohua restart_zaohua
  reconcile_all_lem [] z {out} used all h =
      subst (IsFollowed same [] z) (ok-inj h) (refl, refl, λ held. held)
  reconcile_all_lem ((loop, panic p) ∷ turns) z {out} used all h = absurd (ground arith)
  reconcile_all_lem ((loop, err e) ∷ turns) z {out} used all h =
      let met = record loop { houmao_object = z.loop.houmao_object } in
      let ((restarts, end), run, h2) =
        >>=-eq-ok (reconcile_all same turns (record z { loop = met })) _ h in
      let (spec, count, held) = reconcile_all_lem turns (record z { loop = met }) used all run in
      subst (IsFollowed same (specs_of turns) z) (ok-inj h2) (spec, omega (arith, count), held)
  reconcile_all_lem ((loop, ok object) ∷ turns) z {out} used (now, all) h =
      let met = record loop { houmao_object = z.loop.houmao_object } in
      elim (Bool-cases (same object.spec z.object_spec)) [
        | inl e ↦
            let equal = sound object.spec z.object_spec now used e in
            let ((restarts, end), run, h2) =
              >>=-eq-ok (reconcile_all same turns (record z { loop = met })) _ (rw e at h) in
            let (spec, count, held) =
              reconcile_all_lem turns (record z { loop = met }) used all run in
            subst (IsFollowed same (object.spec ∷ specs_of turns) z) (ok-inj h2) (
              spec ∙ ap (λ s. last_spec s (specs_of turns)) (sym equal),
              rw (e, equal) (omega (arith, count)),
              λ first. held first ∙ ap (λ s. last_spec s (specs_of turns)) (sym equal),
            )
        | inr e ↦
            let after : Zaohua = record {
              object_spec = object.spec;
              loop = restart_zaohua object met;
            } in
            let ((restarts, end), run, h2) =
              >>=-eq-ok (reconcile_all same turns after) _ (rw e at h) in
            let (spec, count, held) = reconcile_all_lem turns after now all run in
            subst (IsFollowed same (object.spec ∷ specs_of turns) z) (ok-inj h2)
              (spec, rw e (omega (arith, count)), λ first. held (unfold reload in refl))
      ]

-- What a reconciliation that returns does to the loop's variables is a sequence of steps of the
-- loop's step relation.
pub reconcile_zaohua-Steps :
    (detect : Houmao → Store → Result Round) (mode : String) (same : HoumaoSpec → HoumaoSpec → Bool)
    (found : Result Houmao) (z : Zaohua) {z' : Zaohua}
    → reconcile_zaohua same found z ≡ ok z'
    → Steps detect mode z.loop z'.loop
unfolding reconcile_zaohua restart_zaohua
reconcile_zaohua-Steps detect mode same (panic p) z h = absurd (ground arith)
reconcile_zaohua-Steps detect mode same (err e) z h =
    subst (λ w. Steps detect mode z.loop w.loop) (ok-inj h) (Steps.stay z.loop)
reconcile_zaohua-Steps detect mode same (ok object) z h =
    elim (Bool-cases (same object.spec z.object_spec)) [
      | inl e ↦
          subst (λ w. Steps detect mode z.loop w.loop) (ok-inj (rw e at h)) (Steps.stay z.loop)
      | inr e ↦
          subst (λ w. Steps detect mode z.loop w.loop) (ok-inj (rw e at h))
            (Steps.then z.loop (restart_zaohua object z.loop) (restart_zaohua object z.loop)
              (Step.write z.loop object) (Steps.stay (restart_zaohua object z.loop)))
    ]
