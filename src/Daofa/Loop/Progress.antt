-- ===== src/Daofa/Loop/Progress.antt =====
-- When the loop of `StartZaohua` gets on.
use mathlib.Core.Path.{subst}
use sunwukong.Base.{
  String, ℕ, zero, suc, ◌≡◌, ◌∙◌, refl, ◌≢◌, ◌⊎◌, inl, inr, arith, Error, Option, Result, ok, err,
  panic,
}
use sunwukong.Houmao.{Houmao}
use sunwukong.Daofa.Scale.{Store, Round, waits, returns}
use sunwukong.Daofa.Loop.{Phase, starting, blocked, selecting, stopped, Loop, round_of, Own}

-- The loop has returned, it waits inside a round for a restart that nobody sends, or the round
-- does not end with a value.
abbrev pub IsStuck : (Houmao → Store → Result Round) → String → Loop → Type 0
IsStuck detect mode s =
    (s.phase ≡ stopped)
    ⊎ (((s.phase ≡ blocked) × (s.waiting ≡ 0))
        ⊎ ((s.phase ≡ starting) × ((r : Round) → round_of detect mode s.object s.store ≢ ok r)))

-- On every way that the loop can go on by itself, it comes to a state with `P`; before, it is never
-- stuck.
pub data Eventually (detect : Houmao → Store → Result Round) (mode : String) (P : Loop → Type 0)
    : Loop → Type 0 where
  now : (s : Loop) → P s → Eventually detect mode P s
  later :
      (s t : Loop)
      → Own detect mode s t
      → ((u : Loop) → Own detect mode s u → Eventually detect mode P u)
      → Eventually detect mode P s

-- The loop works on the object, or it has returned.
abbrev pub Loads : Houmao → Loop → Type 0
Loads object t = (t.object ≡ object) ⊎ (t.phase ≡ stopped)

Phase-cases : (p : Phase) → (p ≡ starting) ⊎ ((p ≡ blocked) ⊎ ((p ≡ selecting) ⊎ (p ≡ stopped)))
Phase-cases starting = inl refl
Phase-cases blocked = inr (inl refl)
Phase-cases selecting = inr (inr (inl refl))
Phase-cases stopped = inr (inr (inr refl))

ℕ-cases : (n : ℕ) → (n ≡ 0) ⊎ ((k : ℕ) × (n ≡ suc k))
ℕ-cases zero = inl refl
ℕ-cases (suc k) = inr (k, refl)

Round-cases :
    (m : Result Round)
    → ((r : Round) → m ≢ ok r)
      ⊎ (((store : Store) × (m ≡ ok (waits store)))
          ⊎ ((failure : Option Error) × (store : Store) × (m ≡ ok (returns failure store))))
Round-cases (ok (waits store)) = inr (inl (store, refl))
Round-cases (ok (returns failure store)) = inr (inr (failure, store, refl))
Round-cases (err e) = inl (λ r h. cc)
Round-cases (panic p) = inl (λ r h. cc)

module _ (detect : Houmao → Store → Result Round) (mode : String) where
  starting_steps :
      (s : Loop) → s.phase ≡ starting → IsStuck detect mode s ⊎ ((t : Loop) × Own detect mode s t)
  starting_steps s p = elim (Round-cases (round_of detect mode s.object s.store)) [
    | inl never ↦ inl (inr (inr (p, never)))
    | inr (inl (store, e)) ↦ inr (_, Own.wait s store p e)
    | inr (inr (failure, store, e)) ↦ inr (_, Own.finish s failure store s.object p e (refl, refl))
  ]

  steps_or_IsStuck : (s : Loop) → IsStuck detect mode s ⊎ ((t : Loop) × Own detect mode s t)
  steps_or_IsStuck s = elim (Phase-cases s.phase) [
    | inl p ↦ starting_steps s p
    | inr (inl p) ↦ elim (ℕ-cases s.waiting) [
      | inl w ↦ inl (inr (inl (p, w)))
      | inr (k, w) ↦ inr (_, Own.wake s k p w)
    ]
    | inr (inr (inl p)) ↦ inr (_, Own.done s p)
    | inr (inr (inr p)) ↦ inl (inl p)
  ]

  IsStuck-no_step : (s t : Loop) → Own detect mode s t → ¬ IsStuck detect mode s
  IsStuck-no_step s _ (Own.wait _ store p e) h = elim h [
    | inl q ↦ ground arith
    | inr (inl q) ↦ ground arith
    | inr (inr (q, never)) ↦ never (waits store) e
  ]
  IsStuck-no_step s _ (Own.finish _ failure store object p e same) h = elim h [
    | inl q ↦ ground arith
    | inr (inl q) ↦ ground arith
    | inr (inr (q, never)) ↦ never (returns failure store) e
  ]
  IsStuck-no_step s _ (Own.wake _ k p e) h = ground arith
  IsStuck-no_step s _ (Own.load _ k p e) h = ground arith
  IsStuck-no_step s _ (Own.next _ p e) h = ground arith
  IsStuck-no_step s _ (Own.done _ p) h = ground arith

  -- The loop can make a step of its own exactly if it is not stuck: it has not returned, is not
  -- inside a round without a sender, and its next round ends with a value.
  pub progress :
      (s : Loop)
      → (¬ IsStuck detect mode s → (t : Loop) × Own detect mode s t)
        × ((t : Loop) → Own detect mode s t → ¬ IsStuck detect mode s)
  progress s = (
    λ free. elim (steps_or_IsStuck s) [ inl h ↦ absurd (free h) | inr step ↦ step ],
    λ t step. IsStuck-no_step s t step,
  )

  Own-Loads :
      (s t : Loop) {n : ℕ}
      → Own detect mode s t
      → s.phase ≡ selecting
      → s.waiting ≡ suc n
      → Loads s.houmao_object t
  Own-Loads s _ (Own.wait _ store q e) p w = absurd (ground arith)
  Own-Loads s _ (Own.finish _ failure store object q e same) p w = absurd (ground arith)
  Own-Loads s _ (Own.wake _ k q e) p w = absurd (ground arith)
  Own-Loads s _ (Own.load _ k q e) p w = inl refl
  Own-Loads s _ (Own.next _ q e) p w = absurd (ground arith)
  Own-Loads s _ (Own.done _ q) p w = inr refl

  selecting-Loads :
      (s : Loop) {n : ℕ}
      → s.phase ≡ selecting
      → s.waiting ≡ suc n
      → Eventually detect mode (Loads s.houmao_object) s
  selecting-Loads s p w =
      Eventually.later s _ (Own.done s p) (λ u step. Eventually.now u (Own-Loads s u step p w))

  -- Where a step from the start of a round that returns leads.
  Own-selecting :
      (s t : Loop) {failure : Option Error} {store : Store}
      → Own detect mode s t
      → s.phase ≡ starting
      → round_of detect mode s.object s.store ≡ ok (returns failure store)
      → (t.phase ≡ selecting) × (t.waiting ≡ s.waiting) × (t.houmao_object ≡ s.houmao_object)
  Own-selecting s _ (Own.wait _ store q e) p r = absurd (ground arith)
  Own-selecting s _ (Own.finish _ failure store object q e same) p r = (refl, refl, refl)
  Own-selecting s _ (Own.wake _ k q e) p r = absurd (ground arith)
  Own-selecting s _ (Own.load _ k q e) p r = absurd (ground arith)
  Own-selecting s _ (Own.next _ q e) p r = absurd (ground arith)
  Own-selecting s _ (Own.done _ q) p r = absurd (ground arith)

  -- If a restart waits at the channel and the round that the loop is about to begin returns, then,
  -- unless another restart changes it before, the loop comes to work on what `HoumaoObject` holds,
  -- or it returns: there is no way on which it does neither.
  pub restart-Loads :
      (s : Loop) {n : ℕ} {failure : Option Error} {store : Store}
      → s.phase ≡ starting
      → s.waiting ≡ suc n
      → round_of detect mode s.object s.store ≡ ok (returns failure store)
      → Eventually detect mode (Loads s.houmao_object) s
  restart-Loads s {n} {failure} {store} p w r =
      Eventually.later s _ (Own.finish s failure store s.object p r (refl, refl)) (λ u step.
        let (q, v, held) = Own-selecting s u step p r in
        subst (λ o. Eventually detect mode (Loads o) u) held (selecting-Loads u {n = n} q (v ∙ w)))
