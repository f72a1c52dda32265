-- ===== src/ZaohuaController/Lost.antt =====
-- The controller beside a loop that works on a blank object.
use mathlib.Core.Path.{subst}
use sunwukong.Base.{
  String, ℕ, suc, ◌+◌, sym, ◌≡◌, refl, ◌≢◌, ◌⊎◌, inl, inr, Bool, true, false, arith, ok-inj, Result,
  ok, err, panic, Bool-cases,
}
use sunwukong.Float.{Float}
use sunwukong.Houmao.{HoumaoSpec, Houmao}
use sunwukong.Daofa.Cluster.{CalculateHandle}
use sunwukong.Daofa.Scale.{Store, Readings, ScaleClient, Round, waits, detect_and_scale}
use sunwukong.Daofa.Loop.{starting, Loop, round_of, Own, Step}
use sunwukong.Daofa.Loop.Restarts.{HasLost, none-HasLost, blank_waits, Own-HasLost, Step-HasLost}
use sunwukong.ZaohuaController.{Zaohua, restart_zaohua, reconcile_zaohua}

-- One step of the loop, of a call of `RestartZaohua` that comes to the channel, or of the
-- controller, which finds an object with the spec or none.
pub data Event (detect : Houmao → Store → Result Round) (mode : String)
    (same : HoumaoSpec → HoumaoSpec → Bool) (spec : HoumaoSpec) : Zaohua → Zaohua → Type 0 where
  run :
      (z : Zaohua) (t : Loop)
      → Own detect mode z.loop t
      → Event detect mode same spec z (record z { loop = t })
  send :
      (z : Zaohua) (n : ℕ)
      → z.loop.sending ≡ suc n
      → Event detect mode same spec z
          (record z { loop = record (Zaohua.loop z) { sending = n; waiting = suc z.loop.waiting } })
  reconcile :
      (z z' : Zaohua) (found : Result Houmao)
      → ((object : Houmao) → found ≡ ok object → object.spec ≡ spec)
      → reconcile_zaohua same found z ≡ ok z'
      → Event detect mode same spec z z'

pub data Events (detect : Houmao → Store → Result Round) (mode : String)
    (same : HoumaoSpec → HoumaoSpec → Bool) (spec : HoumaoSpec) : Zaohua → Zaohua → Type 0 where
  stay : (z : Zaohua) → Events detect mode same spec z z
  then :
      (z z' z'' : Zaohua)
      → Event detect mode same spec z z'
      → Events detect mode same spec z' z''
      → Events detect mode same spec z z''

-- The loop still has the object `o`; if it was restarted, the controller has kept the spec.
record IsLost (same : HoumaoSpec → HoumaoSpec → Bool) (spec : HoumaoSpec) (o : Houmao) (z : Zaohua)
    : Type 0 where
  restarts : ℕ
  lost : HasLost o restarts z.loop
  kept : (restarts ≡ 0) ⊎ (same spec z.object_spec ≡ true)

module _ (detect : Houmao → Store → Result Round) (mode : String) (o : Houmao)
    (blank : (store : Store) → round_of detect mode o store ≡ ok (waits store))
    (same : HoumaoSpec → HoumaoSpec → Bool) (spec : HoumaoSpec)
    (reflexive : same spec spec ≡ true) where
  reconcile-IsLost :
      (z : Zaohua) (found : Result Houmao) {z' : Zaohua}
      → ((object : Houmao) → found ≡ ok object → object.spec ≡ spec)
      → reconcile_zaohua same found z ≡ ok z'
      → IsLost same spec o z
      → IsLost same spec o z'
  unfolding reconcile_zaohua restart_zaohua
  reconcile-IsLost z (panic p) finds h l = absurd (ground arith)
  reconcile-IsLost z (err e) finds h l = subst (IsLost same spec o) (ok-inj h) l
  reconcile-IsLost z (ok object) finds h l = elim (Bool-cases (same object.spec z.object_spec)) [
    | inl e ↦ subst (IsLost same spec o) (ok-inj (rw e at h)) l
    | inr e ↦
        let found_spec = finds object refl in
        let never = subst (λ s. same s z.object_spec ≡ false) found_spec e in
        let first : l.restarts ≡ 0 = ground (arith, l.kept) in
        subst (IsLost same spec o) (ok-inj (rw e at h)) (record {
          restarts = 1 + l.restarts;
          lost =
              Step-HasLost detect mode o blank z.loop (restart_zaohua object z.loop) l.restarts
                (Step.write z.loop object) l.lost (omega arith);
          kept = inr (subst (λ s. same spec s ≡ true) (sym found_spec) reflexive);
        })
  ]

  Event-IsLost :
      (z z' : Zaohua)
      → Event detect mode same spec z z'
      → IsLost same spec o z
      → IsLost same spec o z'
  Event-IsLost z _ (Event.run _ t own) l = record {
    restarts = l.restarts;
    lost = Own-HasLost detect mode o blank z.loop t l.restarts own l.lost;
    kept = l.kept;
  }
  Event-IsLost z _ (Event.send _ n e) l = record {
    restarts = 0 + l.restarts;
    lost =
        Step-HasLost detect mode o blank z.loop _ l.restarts (Step.send z.loop n e) l.lost
          (omega (arith, l.lost.few));
    kept = elim l.kept [ inl none ↦ inl (omega arith) | inr spec_kept ↦ inr spec_kept ];
  }
  Event-IsLost z z' (Event.reconcile _ _ found finds h) l = reconcile-IsLost z found finds h l

  Events-IsLost :
      (z z' : Zaohua)
      → Events detect mode same spec z z'
      → IsLost same spec o z
      → IsLost same spec o z'
  Events-IsLost z _ (Events.stay _) l = l
  Events-IsLost z z'' (Events.then _ z' _ event rest) l =
      Events-IsLost z' z'' rest (Event-IsLost z z' event l)

module _ {F : Type 0} (fl : Float F) (c : CalculateHandle F) (client : ScaleClient)
    (readings : Readings) (mode : String) where
  -- If the mode is not Beidong, equality finds the spec equal to itself, the loop begins a round with
  -- a blank object and no restart is under way, and every reconciliation of the controller fails to
  -- find the object or finds it with one and the same spec, then the loop never comes to work on that
  -- object: it keeps the blank one, however the goroutines interleave and however many
  -- reconciliations there are.
  pub same_spec_lost :
      (same : HoumaoSpec → HoumaoSpec → Bool) (spec : HoumaoSpec) (z z' : Zaohua)
      → Events (detect_and_scale fl c client readings) mode same spec z z'
      → same spec spec ≡ true
      → mode ≢ "Beidong"
      → client.is_blank z.loop.object ≡ true
      → z.loop.phase ≡ starting
      → z.loop.sending ≡ 0
      → z.loop.waiting ≡ 0
      → z'.loop.object ≡ z.loop.object
  same_spec_lost same spec z z' events reflexive active blank p e w =
      let kept =
        Events-IsLost (detect_and_scale fl c client readings) mode z.loop.object
          (blank_waits fl c client readings mode z.loop.object active blank) same spec reflexive z
          z' events (record { restarts = 0; lost = none-HasLost z.loop p e w; kept = inl refl }) in
      kept.lost.same
