-- ===== src/Daofa/Loop/Worlds.antt =====
-- The loop of pkg/zaohua/daofa/zaohua.go in a cluster whose answers change from step to step.
use sunwukong.Base.{String, ◌≡◌, Result, ok}
use sunwukong.Float.{Float}
use sunwukong.Houmao.{Houmao}
use sunwukong.Daofa.Cluster.{CalculateHandle}
use sunwukong.Daofa.Scale.{Store, Round, detect_and_scale}
use sunwukong.Daofa.Scale.Effect.{store_of}
use sunwukong.Daofa.Loop.{Loop, round_of, Own, Step, Steps}
use sunwukong.Daofa.Autoscaler.{World, handle_at}

module _ {F : Type 0} (fl : Float F) (c : CalculateHandle F) where
  abbrev pub detect_at : World → Houmao → Store → Result Round
  detect_at w = detect_and_scale fl (handle_at fl c w) w.client w.readings

  module _ (mode : String) where
    -- A run of the loop; each step has a world of its own.
    pub data Run : Loop → Loop → Type 0 where
      stay : (s : Loop) → Run s s
      then : (s t u : Loop) (w : World) → Step (detect_at w) mode s t → Run t u → Run s u

    -- In one world, the steps of the loop are such a run.
    abbrev pub run_of : (w : World) {s t : Loop} → Steps (detect_at w) mode s t → Run s t
    run_of w (Steps.stay s) = Run.stay s
    run_of w (Steps.then s t u step rest) = Run.then s t u w step (run_of w rest)

    -- At each step of the run, its world and the loop are so related.
    abbrev pub Each : (World → Loop → Type 0) → {s t : Loop} → Run s t → Type 0
    Each Q (Run.stay s) = Unit
    Each Q (Run.then s t u w step rest) = Q w s × Each Q rest

    module _ (P : Store → Type 0) (Q : World → Loop → Type 0)
        (kept : (w : World) (s : Loop) (round : Round)
          → Q w s
          → P s.store
          → round_of (detect_at w) mode s.object s.store ≡ ok round
          → P (store_of round)) where
      Own-keeps :
          (w : World) (s t : Loop) → Own (detect_at w) mode s t → Q w s → P s.store → P t.store
      unfolding store_of
      Own-keeps w s _ (Own.wait _ store p e) q h = kept w s _ q h e
      Own-keeps w s _ (Own.finish _ failure store object p e same) q h = kept w s _ q h e
      Own-keeps w s _ (Own.wake _ n p e) q h = h
      Own-keeps w s _ (Own.load _ n p e) q h = h
      Own-keeps w s _ (Own.next _ p e) q h = h
      Own-keeps w s _ (Own.done _ p) q h = h

      Step-keeps :
          (w : World) (s t : Loop) → Step (detect_at w) mode s t → Q w s → P s.store → P t.store
      Step-keeps w s t (Step.own _ _ own) q h = Own-keeps w s t own q h
      Step-keeps w s _ (Step.write _ houmao) q h = h
      Step-keeps w s _ (Step.send _ n e) q h = h

      -- What each round keeps of the package's variables, a run keeps.
      pub Run-keeps : (s t : Loop) (run : Run s t) → Each Q run → P s.store → P t.store
      Run-keeps s _ (Run.stay _) each h = h
      Run-keeps s u (Run.then _ t _ w step rest) (here, each) h =
          Run-keeps t u rest each (Step-keeps w s t step here h)
