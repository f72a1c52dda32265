-- ===== src/Daofa/Events/Changes.antt =====
-- The changes in the histories of events of pkg/zaohua/daofa/zaohua.go.
use mathlib.Core.Path.{subst}
use sunwukong.Base.{
  ℕ, zero, suc, ◌+◌, ◌≡◌, ◌≢◌, inl, inr, false, Option, none, some, List, [], ◌∷◌, set, All,
  All-append, arith, ok, Bool-cases, >>=-eq-ok, ok-inj,
}
use sunwukong.Base.Int.{ℤ, pos, pos_part, neg_part, eq_of_parts, ◌≤ℤ◌, ◌<ℤ◌, ◌-ℤ◌, ltb_ℤ, -ℤ_parts}
use sunwukong.Base.Words.{◌-32◌, max_int32, wrap32_self}
use sunwukong.Kube.Time.{Time}
use sunwukong.Kube.Autoscaling.{Behavior}
use sunwukong.Daofa.Records.{ScaleEvent}
use sunwukong.Daofa.Events.{
  mark_all, mark_events_outdated, replace_or_append, store_event, longest_policy_period,
  storage_scale_event,
}

-- Every event of the history is of one replica at least.
abbrev pub IsOfChanges : List ScaleEvent → Type 0
IsOfChanges = All (λ e. pos 1 ≤ℤ e.replica_change)

mark_all-IsOfChanges :
    (cutoff : Time) (events : List ScaleEvent)
    → IsOfChanges events
    → IsOfChanges (mark_all cutoff events)
unfolding mark_all
mark_all-IsOfChanges cutoff [] h = tt
mark_all-IsOfChanges cutoff (e ∷ events) (h, hs) =
    (ground arith, mark_all-IsOfChanges cutoff events hs)

All-set {ℓ κ} :
    {A : Type ℓ} (P : A → Type κ) (xs : List A) (i : ℕ) (x : A)
    → All P xs
    → P x
    → All P (set xs i x)
All-set P [] i x h p = tt
All-set P (y ∷ xs) zero x (h, hs) p = (p, hs)
All-set P (y ∷ xs) (suc i) x (h, hs) p = (h, All-set P xs i x hs p)

replace_or_append-IsOfChanges :
    (found : Option ℕ) (e : ScaleEvent) (events : List ScaleEvent)
    → pos 1 ≤ℤ e.replica_change
    → IsOfChanges events
    → IsOfChanges (replace_or_append found e events)
unfolding replace_or_append
replace_or_append-IsOfChanges (some i) e events p h = All-set _ events i e h p
replace_or_append-IsOfChanges none e events p h = All-append _ events (e ∷ []) h (p, tt)

store_event-IsOfChanges :
    (now1 now2 : Time) (longest change : ℤ) (events : List ScaleEvent)
    → pos 1 ≤ℤ change
    → IsOfChanges events
    → IsOfChanges (store_event now1 now2 longest change events)
unfolding store_event mark_events_outdated
store_event-IsOfChanges now1 now2 longest change events p h =
    replace_or_append-IsOfChanges _ _ _ p (mark_all-IsOfChanges _ events h)

-- A scaling between two different numbers of replicas.
abbrev pub IsScaling : ℤ → ℤ → Type 0
IsScaling pre n = (pos 0 ≤ℤ pre) × (pre ≤ℤ max_int32) × (pos 0 ≤ℤ n) × (n ≤ℤ max_int32) × (n ≢ pre)

-- A greater number less a smaller one does not wrap.
difference-ge : (a b : ℤ) → pos 0 ≤ℤ a → b <ℤ a → pos 0 ≤ℤ b → a ≤ℤ max_int32 → pos 1 ≤ℤ a -32 b
unfolding ◌-32◌
difference-ge a b a_pos less b_pos small =
    rw (wrap32_self (a -ℤ b) (omega (arith, -ℤ_parts a b), omega (arith, -ℤ_parts a b)))
      (omega (arith, -ℤ_parts a b))

below : (pre n : ℤ) → ltb_ℤ pre n ≡ false → n ≢ pre → n <ℤ pre
below pre n h differs =
    let apart : pos_part n + neg_part pre ≢ pos_part pre + neg_part n =
      λ e. differs (eq_of_parts n pre e) in
    ground arith

-- Storing a scaling keeps both histories of changes.
pub storage_scale_event-IsOfChanges :
    (now1 now2 : Time) (behavor : Behavior) (pre n : ℤ) (ups downs : List ScaleEvent)
    {new : List ScaleEvent × List ScaleEvent}
    → IsScaling pre n
    → IsOfChanges ups
    → IsOfChanges downs
    → storage_scale_event now1 now2 (some behavor) pre n ups downs ≡ ok new
    → IsOfChanges new.0 × IsOfChanges new.1
unfolding storage_scale_event
storage_scale_event-IsOfChanges now1 now2 behavor pre n ups downs
      (pre_pos, pre_small, n_pos, n_small, differs) u d h =
    let IsBoth : List ScaleEvent × List ScaleEvent → Type 0 =
      λ e. IsOfChanges e.0 × IsOfChanges e.1 in
    elim (Bool-cases (ltb_ℤ pre n)) [
      | inl more ↦
          let (longest, _, h2) =
            >>=-eq-ok (longest_policy_period behavor.scale_up) _ (rw more at h) in
          subst IsBoth (ok-inj h2) (
            store_event-IsOfChanges now1 now2 longest (n -32 pre) ups
                (difference-ge n pre n_pos (ground arith) pre_pos n_small) u,
            d,
          )
      | inr less ↦
          let (longest, _, h2) =
            >>=-eq-ok (longest_policy_period behavor.scale_down) _ (rw less at h) in
          subst IsBoth (ok-inj h2) (
            u,
            store_event-IsOfChanges now1 now2 longest (pre -32 n) downs
                (difference-ge pre n pre_pos (below pre n less differs) n_pos pre_small) d,
          )
    ]
