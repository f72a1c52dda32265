-- ===== src/Daofa/Events/Kept.antt =====
-- What stays in the history of events.
use native.Mathlib.Nat.{zero-add}
use sunwukong.Base.{
  ℕ, zero, suc, ◌+◌, ◌≡◌, refl, ◌⊎◌, inl, inr, Bool, true, false, ◌||◌, Option, none, some, List,
  [], ◌∷◌, ◌++◌, length, length-append, set, length-set, get_elem?, All, arith, if◌then◌else◌,
  Bool-cases,
}
use sunwukong.Base.Int.{ℤ, ◌≤ℤ◌, ltb_ℤ}
use sunwukong.Kube.Time.{Time, seconds, back, before}
use sunwukong.Kube.Autoscaling.{ScalingPolicy}
use sunwukong.Daofa.Records.{ScaleEvent}
use sunwukong.Daofa.Events.{longest_period, mark_all, mark_events_outdated, old_sample, store_event}

-- `e` stands in the list.
abbrev pub IsIn : ScaleEvent → List ScaleEvent → Type 0
IsIn e [] = ⊥
IsIn e (d ∷ events) = (e ≡ d) ⊎ IsIn e events

-- An event that is outdated already, or from before the cutoff.
abbrev pub any_old : Time → List ScaleEvent → Bool
any_old cutoff [] = false
any_old cutoff (e ∷ events) = before e.timestamp cutoff || e.outdated || any_old cutoff events

-- The longest period is at least each policy's, and is 0 or one of them.
pub longest_period_lem :
    (policies : List ScalingPolicy) (longest : ℤ)
    → let l = longest_period policies longest in
      (longest ≤ℤ l) × All (λ p. p.period_seconds ≤ℤ l) policies
unfolding longest_period
longest_period_lem [] longest = (omega arith, tt)
longest_period_lem (p ∷ policies) longest = ground (
  arith,
  longest_period_lem policies
      (if ltb_ℤ longest p.period_seconds then p.period_seconds else longest),
)

mark_all-IsIn :
    (cutoff : Time) (e : ScaleEvent) (events : List ScaleEvent)
    → before e.timestamp cutoff ≡ false
    → IsIn e events
    → IsIn e (mark_all cutoff events)
unfolding mark_all
mark_all-IsIn cutoff e [] h m = m
mark_all-IsIn cutoff e (d ∷ events) h (inl same) = inl (ground arith)
mark_all-IsIn cutoff e (d ∷ events) h (inr m) = inr (mark_all-IsIn cutoff e events h m)

abbrev any_outdated : List ScaleEvent → Bool
any_outdated [] = false
any_outdated (e ∷ events) = e.outdated || any_outdated events

any_outdated-mark_all :
    (cutoff : Time) (events : List ScaleEvent)
    → any_outdated (mark_all cutoff events) ≡ any_old cutoff events
unfolding mark_all
any_outdated-mark_all cutoff [] = refl
any_outdated-mark_all cutoff (e ∷ events) = ground (arith, any_outdated-mark_all cutoff events)

length-mark_all :
    (cutoff : Time) (events : List ScaleEvent) → length (mark_all cutoff events) ≡ length events
unfolding mark_all
length-mark_all cutoff [] = refl
length-mark_all cutoff (e ∷ events) = omega (arith, length-mark_all cutoff events)

-- The loop finds the index of an outdated event, or there is none and it keeps what it had.
old_sample_lem :
    (i : ℕ) (events : List ScaleEvent) (found : Option ℕ)
    → ((old_sample i events found ≡ found) × (any_outdated events ≡ false))
      ⊎ ((k : ℕ) × (e : ScaleEvent) × (old_sample i events found ≡ some (i + k))
          × (get_elem? events k ≡ some e)
          × (e.outdated ≡ true)
          × (any_outdated events ≡ true))
unfolding old_sample
old_sample_lem i [] found = inl (refl, refl)
old_sample_lem i (d ∷ events) found =
    elim (old_sample_lem (suc i) events (if d.outdated then some i else found)) [
      | inl (e, n) ↦ elim (Bool-cases d.outdated) [
        | inl old ↦ inr (zero, d, ground arith, refl, old, ground arith)
        | inr new ↦ inl (ground arith, ground arith)
      ]
      | inr (k, e, at, g, o, any) ↦ inr (suc k, e, ground arith, g, o, ground arith)
    ]

set-IsIn :
    (events : List ScaleEvent) (i : ℕ) (e new : ScaleEvent) (old : ScaleEvent)
    → get_elem? events i ≡ some old
    → old.outdated ≡ true
    → e.outdated ≡ false
    → IsIn e events
    → IsIn e (set events i new)
set-IsIn [] i e new old g o h m = m
set-IsIn (d ∷ events) zero e new old g o h (inl same) = absurd (ground arith)
set-IsIn (d ∷ events) zero e new old g o h (inr m) = inr m
set-IsIn (d ∷ events) (suc i) e new old g o h (inl same) = inl same
set-IsIn (d ∷ events) (suc i) e new old g o h (inr m) = inr (set-IsIn events i e new old g o h m)

set-IsIn_new :
    (events : List ScaleEvent) (i : ℕ) (new : ScaleEvent) (old : ScaleEvent)
    → get_elem? events i ≡ some old
    → IsIn new (set events i new)
set-IsIn_new [] i new old g = cc
set-IsIn_new (d ∷ events) zero new old g = inl refl
set-IsIn_new (d ∷ events) (suc i) new old g = inr (set-IsIn_new events i new old g)

append-IsIn :
    (events : List ScaleEvent) (e new : ScaleEvent) → IsIn e events → IsIn e (events ++ (new ∷ []))
append-IsIn [] e new m = absurd m
append-IsIn (d ∷ events) e new (inl same) = inl same
append-IsIn (d ∷ events) e new (inr m) = inr (append-IsIn events e new m)

append-IsIn_new : (events : List ScaleEvent) (new : ScaleEvent) → IsIn new (events ++ (new ∷ []))
append-IsIn_new [] new = inl refl
append-IsIn_new (d ∷ events) new = inr (append-IsIn_new events new)

-- Storing an event puts it into the history and keeps every event that is neither outdated nor
-- older than the longest period; the history grows only while it holds none that is.
pub store_event_keeps :
    (now1 now2 : Time) (longest change : ℤ) (events : List ScaleEvent)
    → let cutoff = back now1 (seconds longest) in
      let new : ScaleEvent = record {
        replica_change = change;
        timestamp = now2;
        outdated = false;
      } in
      let after = store_event now1 now2 longest change events in
      IsIn new after
      × ((e : ScaleEvent)
          → IsIn e events
          → e.outdated ≡ false
          → before e.timestamp cutoff ≡ false
          → IsIn e after)
      × (length after ≡ (if any_old cutoff events then length events else suc (length events)))
unfolding store_event mark_events_outdated
store_event_keeps now1 now2 longest change events =
    let cutoff = back now1 (seconds longest) in
    let new : ScaleEvent = record { replica_change = change; timestamp = now2; outdated = false } in
    let marked = mark_all cutoff events in
    elim (old_sample_lem 0 marked none) [
      | inl (e, fresh) ↦ rw e (
        append-IsIn_new marked new,
        (λ d m o b. append-IsIn marked d new (mark_all-IsIn cutoff d events b m)),
        ground (
          arith,
          any_outdated-mark_all cutoff events,
          length-append marked (new ∷ []),
          length-mark_all cutoff events,
        ),
      )
      | inr (k, old, e, g, o, any) ↦
          rw (e, zero-add)
            (
              set-IsIn_new marked k new old g,
              (λ d m o' b. set-IsIn marked k d new old g o o' (mark_all-IsIn cutoff d events b m)),
              ground (
                arith,
                any_outdated-mark_all cutoff events,
                length-set marked k new,
                length-mark_all cutoff events,
              ),
            )
    ]
