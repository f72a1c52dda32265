-- ===== src/Daofa/Loop/Histories.antt =====
-- The histories of events through a run of the loop of pkg/zaohua/daofa/zaohua.go.
use mathlib.Core.Path.{subst}
use sunwukong.Base.{String, ◌≡◌, sym, inl, inr, arith, ok, ok-inj, str_eq, Bool-cases}
use sunwukong.Base.Int.{pos, ◌≤ℤ◌}
use sunwukong.Base.Words.{max_int32}
use sunwukong.Float.{Float}
use sunwukong.Kube.Autoscaling.{Scale}
use sunwukong.Daofa.Cluster.{CalculateHandle}
use sunwukong.Daofa.Scale.{Store, Round}
use sunwukong.Daofa.Calculate.Greatest.{calculate_bounds}
use sunwukong.Daofa.Scale.Effect.{store_of, IsScaleOf}
use sunwukong.Daofa.Scale.Recorded.{Histories, detect_and_scale-Records}
use sunwukong.Daofa.Events.Changes.{IsOfChanges, IsScaling, storage_scale_event-IsOfChanges}
use sunwukong.Daofa.Loop.{Loop, round_of}
use sunwukong.Daofa.Loop.Updates.{IsLimited}
use sunwukong.Daofa.Loop.Worlds.{detect_at, Run, Each, Run-keeps}
use sunwukong.Daofa.Autoscaler.{World, handle_at}

-- Both histories hold scalings by one replica at least.
abbrev pub IsHistory : Store → Type 0
IsHistory store = IsOfChanges store.scale_up_events × IsOfChanges store.scale_down_events

abbrev AreOfChanges : Histories → Type 0
AreOfChanges h = IsOfChanges h.0 × IsOfChanges h.1

module _ {F : Type 0} (fl : Float F) (c : CalculateHandle F) (mode : String) where
  -- The limits of the object are numbers from 0, and so are the replicas of its scale.
  abbrev pub IsNatural : World → Loop → Type 0
  IsNatural w s =
      IsLimited (pos 0) max_int32 s.object
      × ((scale : Scale)
          → IsScaleOf fl (handle_at fl c w) w.client w.readings s.object scale
          → (pos 0 ≤ℤ scale.spec_replicas) × (scale.spec_replicas ≤ℤ max_int32))

  round_of-IsHistory :
      (w : World) (s : Loop) (round : Round)
      → IsNatural w s
      → IsHistory s.store
      → round_of (detect_at fl c w) mode s.object s.store ≡ ok round
      → IsHistory (store_of round)
  unfolding round_of store_of
  round_of-IsHistory w s round ((m, least, m_pos, order, small), replicas) (u, d) run =
      elim (Bool-cases (str_eq mode "Beidong")) [
        | inl passive ↦
            subst (λ (r : Round). IsHistory (store_of r)) (ok-inj (rw passive at run)) (u, d)
        | inr active ↦
            let scaled =
              detect_and_scale-Records fl (handle_at fl c w) w.client w.readings s.object IsScaling
                s.store
                (λ scale r found chosen differs.
                  let (pre_pos, pre_small) = replicas scale found in
                  let (above, below) =
                    calculate_bounds fl (handle_at fl c w) w.client.parse_selector s.object scale
                      least order chosen in
                  (
                    pre_pos,
                    pre_small,
                    omega (arith, m_pos, above),
                    omega (arith, below, small),
                    differs,
                  ))
                (rw active at run) in
            elim scaled [
              | inl same ↦ subst AreOfChanges (sym same) (u, d)
              | inr (pre, n, scaling, stored) ↦
                  storage_scale_event-IsOfChanges w.readings.outdated w.readings.event
                    s.object.spec.behavor pre n s.store.scale_up_events s.store.scale_down_events
                    scaling u d stored
            ]
      ]

  -- Every step of the loop keeps the histories well formed: if the limits of the objects that it
  -- works on and the replicas of their scales are numbers from 0 to the greatest int32, each event of
  -- either history is a scaling by one replica at least, with no difference wrapped around.
  pub Run-IsHistory :
      (s t : Loop) (run : Run fl c mode s t)
      → Each fl c mode IsNatural run
      → IsHistory s.store
      → IsHistory t.store
  Run-IsHistory = Run-keeps fl c mode IsHistory IsNatural round_of-IsHistory
