-- ===== src/Daofa/Loop/Ascends.antt =====
-- The loop of pkg/zaohua/daofa/zaohua.go over a target that follows what is sent.
use sunwukong.Base.{
  String, ◌≡◌, ◌⊎◌, inl, inr, some, sym, List, [], ◌∷◌, ◌++◌, All, All-append, All-map, arith, ok,
}
use sunwukong.Base.Int.{ℤ, ◌≤ℤ◌}
use sunwukong.Float.{Float}
use sunwukong.Kube.Autoscaling.{Scale}
use sunwukong.Daofa.Cluster.{CalculateHandle}
use sunwukong.Daofa.Calculate.Greatest.{IsCut}
use sunwukong.Daofa.Scale.Effect.{IsScaleOf, Updates, store_of}
use sunwukong.Daofa.Loop.{Loop, round_of}
use sunwukong.Daofa.Scale.{Round}
use sunwukong.Daofa.Loop.Worlds.{detect_at, Run, Each, Run-keeps}
use sunwukong.Daofa.Loop.Refines.{round_of-IsDue}
use sunwukong.Daofa.Autoscaler.{World, handle_at, IsDue}

-- No number is less than one before it.
abbrev pub IsAscending : List ℤ → Type 0
IsAscending [] = Unit
IsAscending (n ∷ ns) = All (λ k. n ≤ℤ k) ns × IsAscending ns

IsAscending-append :
    (ns : List ℤ) (n : ℤ) → IsAscending ns → All (λ k. k ≤ℤ n) ns → IsAscending (ns ++ (n ∷ []))
IsAscending-append [] n ascending below = (tt, tt)
IsAscending-append (k ∷ ns) n (first, rest) (le, below) =
    (All-append (λ j. k ≤ℤ j) ns (n ∷ []) first (le, tt), IsAscending-append ns n rest below)

-- A number cut to limits in order stays at least what it was, or is the greatest.
IsCut-ge :
    (n current m max : ℤ) {r : ℤ}
    → current ≤ℤ n
    → m ≤ℤ max
    → IsCut n (some m) max r
    → (r ≤ℤ max) × ((current ≤ℤ r) ⊎ (r ≡ max))
IsCut-ge n current m max {r} le order h = (ground arith, ground arith)

module _ {F : Type 0} (fl : Float F) (c : CalculateHandle F) (mode : String) (high : ℤ) where
  -- In the world, the target of the object runs at least as many replicas as each number that was
  -- sent, and the object's greatest number is `high`, its
  -- least no more.
  abbrev pub Follows : World → Loop → Type 0
  Follows w s =
      (m : ℤ) × (s.object.spec.min_replicas ≡ some m)
      × (m ≤ℤ high)
      × (s.object.spec.max_replicas ≡ high)
      × ((scale : Scale)
          → IsScaleOf fl (handle_at fl c w) w.client w.readings s.object scale
          → All (λ k. k ≤ℤ scale.status_replicas) s.store.updates)

  -- What the loop sent ascends, and is not above `high`.
  abbrev pub Ascends : List ℤ → Type 0
  Ascends sent = IsAscending sent × All (λ k. k ≤ℤ high) sent

  IsDue-Ascends :
      (w : World) (s : Loop) (new : List ℤ)
      → Follows w s
      → Ascends s.store.updates
      → Updates (IsDue fl c w s.object) s.store.updates new
      → Ascends new
  IsDue-Ascends w s new follows ascends (inl same) = rw same ascends
  IsDue-Ascends w s new (m, least, order, greatest, follows) (ascends, below) (inr (n, due, one)) =
      let (selector, elected, p, elects, cut) = due.decided in
      let scale = due.scale in
      let cut' : IsCut elected (some m) high n = rw (sym least, sym greatest, due.number) cut in
      let (bound, which) = IsCut-ge elected scale.status_replicas m high elects.least order cut' in
      let above : All (λ k. k ≤ℤ n) s.store.updates = elim which [
        | inl more ↦
            All-map (λ k le. omega (arith, le, more)) s.store.updates (follows scale due.found)
        | inr same ↦ All-map (λ k le. ground (arith, le, same)) s.store.updates below
      ] in
      rw one (
        IsAscending-append s.store.updates n ascends above,
        All-append (λ k. k ≤ℤ high) s.store.updates (n ∷ []) below (bound, tt),
      )

  round_of-Ascends :
      (w : World) (s : Loop) (round : Round)
      → Follows w s
      → Ascends s.store.updates
      → round_of (detect_at fl c w) mode s.object s.store ≡ ok round
      → Ascends (store_of round).updates
  round_of-Ascends w s round follows ascends run =
      IsDue-Ascends w s (store_of round).updates follows ascends
        (round_of-IsDue fl c mode w s.object s.store run)

  -- The loop never scales down: if the target runs at every step at least what was sent before, and
  -- the objects that the loop works on have one greatest number, with the least no more than it,
  -- then no number that is sent is less than one that was sent before, whatever the metrics are.
  pub Run-Ascends :
      (s t : Loop) (run : Run fl c mode s t)
      → Each fl c mode Follows run
      → Ascends s.store.updates
      → Ascends t.store.updates
  Run-Ascends = Run-keeps fl c mode (λ store. Ascends store.updates) Follows round_of-Ascends
