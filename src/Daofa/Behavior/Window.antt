-- ===== src/Daofa/Behavior/Window.antt =====
-- The stabilization window of pkg/zaohua/daofa/behavor_processor.go.
use sunwukong.Base.{
  ℕ, suc, ◌≡◌, refl, ◌⊎◌, inl, inr, Bool, true, false, ◌||◌, none, some, List, [], ◌∷◌, length,
  length-append, length-set, All, arith, ok, if◌then◌else◌, Bool-cases,
}
use sunwukong.Base.Int.{ℤ, leb_ℤ, ◌≤ℤ◌}
use sunwukong.Kube.Time.{Time, seconds, back, after, before}
use sunwukong.Kube.Autoscaling.{ScalingRules}
use sunwukong.Daofa.Records.{RecommendationRecord, max, min}
use sunwukong.Daofa.Behavior.{
  ReviseInfo, WindowScan, scan_record, scan_records, store_record, window_of,
  stabilization_recommendation,
}

-- `r` is no more than what was asked for and than any recommendation after the cutoff.
abbrev pub IsBelow : Time → List RecommendationRecord → ℤ → Type 0
IsBelow cutoff records r =
    All (λ rec. after rec.timestamp cutoff ≡ true → r ≤ℤ rec.desired_replicas) records

-- `r` is what was asked for, or a recommendation after the cutoff.
abbrev pub IsAmong : Time → ℤ → List RecommendationRecord → ℤ → Type 0
IsAmong cutoff desired [] r = r ≡ desired
IsAmong cutoff desired (rec ∷ recs) r =
    ((after rec.timestamp cutoff ≡ true) × (r ≡ rec.desired_replicas))
    ⊎ IsAmong cutoff desired recs r

abbrev pub any_before : Time → List RecommendationRecord → Bool
any_before t [] = false
any_before t (rec ∷ recs) = before rec.timestamp t || any_before t recs

-- Both functions choose the smaller number.
pub max-eq-min : max ≡ min
unfolding max min
max-eq-min = refl

pub min_lem : (a b : ℤ) → (min a b ≤ℤ a) × (min a b ≤ℤ b) × ((min a b ≡ a) ⊎ (min a b ≡ b))
unfolding min
min_lem a b = ground arith

-- Another number may be asked for, unless the first is the choice.
IsAmong-change :
    (cutoff : Time) (a b : ℤ) (recs : List RecommendationRecord) (r : ℤ)
    → IsAmong cutoff a recs r
    → (r ≡ a) ⊎ IsAmong cutoff b recs r
IsAmong-change cutoff a b [] r h = inl h
IsAmong-change cutoff a b (rec ∷ recs) r (inl h) = inr (inl h)
IsAmong-change cutoff a b (rec ∷ recs) r (inr h) = elim (IsAmong-change cutoff a b recs r h) [
  | inl e ↦ inl e
  | inr k ↦ inr (inr k)
]

module _ (cutoff obsolete : Time) where
  scan_records-IsBelow :
      (i : ℕ) (recs : List RecommendationRecord) (s : WindowScan)
      → let r = (scan_records min cutoff obsolete i recs s).recommendation in
        (r ≤ℤ s.recommendation) × IsBelow cutoff recs r
  unfolding scan_records
  scan_records-IsBelow i [] s = (omega arith, tt)
  scan_records-IsBelow i (rec ∷ recs) s =
      let s' = scan_record min cutoff obsolete i rec s in
      ground
        (arith, min_lem rec.desired_replicas s.recommendation, scan_records-IsBelow (suc i) recs s')

  scan_records-IsAmong :
      (i : ℕ) (recs : List RecommendationRecord) (s : WindowScan)
      → IsAmong cutoff s.recommendation recs
          (scan_records min cutoff obsolete i recs s).recommendation
  unfolding scan_records
  scan_records-IsAmong i [] s = refl
  scan_records-IsAmong i (rec ∷ recs) s =
      let s' = scan_record min cutoff obsolete i rec s in
      let r = (scan_records min cutoff obsolete (suc i) recs s').recommendation in
      let rest = scan_records-IsAmong (suc i) recs s' in
      let moved = IsAmong-change cutoff s'.recommendation s.recommendation recs r rest in
      ground (arith, min_lem rec.desired_replicas s.recommendation, moved, rest)

  length-store_record :
      (r : RecommendationRecord) (records : List RecommendationRecord) (i : ℕ)
      (recs : List RecommendationRecord) (s : WindowScan)
      → length (store_record (scan_records min cutoff obsolete i recs s).old_sample r records) ≡ (
          if any_before obsolete recs
          then length records
          else length (store_record s.old_sample r records))
  unfolding scan_records store_record
  length-store_record r records i [] s = refl
  length-store_record r records i (rec ∷ recs) s =
      let s' = scan_record min cutoff obsolete i rec s in
      ground (arith, length-set records i r, length-store_record r records (suc i) recs s')

length-store_record-none :
    (r : RecommendationRecord) (records : List RecommendationRecord)
    → length (store_record none r records) ≡ suc (length records)
unfolding store_record
length-store_record-none r records = omega (arith, length-append records (r ∷ []))

-- The window that applies to a revision: that of scaling up unless fewer replicas are asked for.
abbrev pub delay_of : ReviseInfo → ℤ → ℤ → ℤ
delay_of info up down = if leb_ℤ info.current_replicas info.desired_replicas then up else down

module _ (now1 now2 now3 : Time) (info : ReviseInfo) (up down : ScalingRules) {u d : ℤ}
    (has_up : info.scale_up_behavor ≡ some up) (has_down : info.scale_down_behavor ≡ some down)
    (up_window : up.stabilization_window_seconds ≡ some u)
    (down_window : down.stabilization_window_seconds ≡ some d) where
  window_of_lem : window_of info ≡ ok (delay_of info u d, min)
  unfolding window_of
  window_of_lem = elim (Bool-cases (leb_ℤ info.current_replicas info.desired_replicas)) [
    | inl e ↦ rw (e, has_up, up_window)
    | inr e ↦ rw (e, has_down, down_window, max-eq-min)
  ]

  abbrev scan_of : List RecommendationRecord → WindowScan
  scan_of records =
      scan_records min (back now1 (seconds (delay_of info u d))) (back now2 (seconds (min u d))) 0
        records (record { recommendation = info.desired_replicas; old_sample = none })

  abbrev stored_of : List RecommendationRecord → RecommendationRecord
  stored_of records = record {
    desired_replicas = (scan_of records).recommendation;
    timestamp = now3;
  }

  stabilization_run :
      (records : List RecommendationRecord)
      → stabilization_recommendation now1 now2 now3 info records
        ≡ ok (
          (scan_of records).recommendation,
          store_record (scan_of records).old_sample (stored_of records) records,
        )
  unfolding stabilization_recommendation
  stabilization_run records =
      rw (window_of_lem, has_up, up_window, has_down, down_window, max-eq-min)

  -- With both windows set the stabilization returns: the recommendation is the least of the number
  -- asked for and the recommendations inside the window, for scaling down as for scaling up. The
  -- history grows by one unless it holds a record older than the smaller window.
  pub stabilization_least :
      (records : List RecommendationRecord)
      → let cutoff = back now1 (seconds (delay_of info u d)) in
        (r : ℤ) × (records' : List RecommendationRecord) × (stabilization_recommendation now1 now2
            now3 info records
          ≡ ok (r, records'))
        × (r ≤ℤ info.desired_replicas)
        × IsBelow cutoff records r
        × IsAmong cutoff info.desired_replicas records r
        × (length records' ≡ (
            if any_before (back now2 (seconds (min u d))) records
            then length records
            else suc (length records)))
  unfolding stabilization_recommendation
  stabilization_least records =
      let cutoff = back now1 (seconds (delay_of info u d)) in
      let obsolete = back now2 (seconds (min u d)) in
      let start : WindowScan = record {
        recommendation = info.desired_replicas;
        old_sample = none;
      } in
      let below = scan_records-IsBelow cutoff obsolete 0 records start in
      (
        (scan_of records).recommendation,
        store_record (scan_of records).old_sample (stored_of records) records,
        stabilization_run records,
        below.0,
        below.1,
        scan_records-IsAmong cutoff obsolete 0 records start,
        ground (
          arith,
          length-store_record cutoff obsolete (stored_of records) records 0 records start,
          length-store_record-none (stored_of records) records,
        ),
      )
