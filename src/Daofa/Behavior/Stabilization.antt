-- ===== src/Daofa/Behavior/Stabilization.antt =====
-- The stabilization window: `stabilizationRecommendationWithBehavors` of
-- pkg/zaohua/daofa/behavor_processor.go. Its readings of the clock are arguments.
use sunwukong.Base.{
  ℕ, suc, Option, none, some, List, [], ◌∷◌, ◌++◌, set, Result, ok, ◌>>=◌, deref, if◌then◌else◌,
}
use sunwukong.Base.Int.{ℤ, leb_ℤ}
use sunwukong.Kube.Time.{Time, seconds, back, after, before}
use sunwukong.Kube.Autoscaling.{ScalingRules}
use sunwukong.Daofa.Records.{RecommendationRecord, max, min}

pub record ReviseInfo : Type 0 where
  pub scale_up_behavor : Option ScalingRules
  pub scale_down_behavor : Option ScalingRules
  pub current_replicas : ℤ
  pub desired_replicas : ℤ

-- What the loop over the records carries: the recommendation, and the index of the last record
-- that is older than the obsolete cutoff, if `foundOldSample`.
pub record WindowScan : Type 0 where
  pub recommendation : ℤ
  pub old_sample : Option ℕ

abbrev pub scan_record :
    (ℤ → ℤ → ℤ) → Time → Time → ℕ → RecommendationRecord → WindowScan → WindowScan
scan_record action cutoff obsolete_cutoff i rec s = record {
  recommendation =
      if after rec.timestamp cutoff
      then action rec.desired_replicas s.recommendation
      else s.recommendation;
  old_sample = if before rec.timestamp obsolete_cutoff then some i else s.old_sample;
}

unfoldable pub scan_records :
    (ℤ → ℤ → ℤ) → Time → Time → ℕ → List RecommendationRecord → WindowScan → WindowScan
scan_records action cutoff obsolete_cutoff i [] s = s
scan_records action cutoff obsolete_cutoff i (rec ∷ recs) s =
    scan_records action cutoff obsolete_cutoff (suc i) recs
      (scan_record action cutoff obsolete_cutoff i rec s)

-- `records[i] = r` if an old sample was found, else `append(records, r)`.
unfoldable pub store_record :
    Option ℕ → RecommendationRecord → List RecommendationRecord → List RecommendationRecord
store_record (some i) r records = set records i r
store_record none r records = records ++ (r ∷ [])

-- The window that applies, and the function that chooses.
unfoldable pub window_of : ReviseInfo → Result (ℤ × (ℤ → ℤ → ℤ))
window_of info =
    if leb_ℤ info.current_replicas info.desired_replicas
    then (do
      rules ← deref info.scale_up_behavor
      delay ← deref rules.stabilization_window_seconds
      ok (delay, min))
    else (do
      rules ← deref info.scale_down_behavor
      delay ← deref rules.stabilization_window_seconds
      ok (delay, max))

-- `stabilizationRecommendationWithBehavors`, with its three readings of the clock. The reason is
-- the constant "ScaleUpStabilized", which no caller reads.
unfoldable pub stabilization_recommendation :
    Time
    → Time
    → Time
    → ReviseInfo
    → List RecommendationRecord
    → Result (ℤ × List RecommendationRecord)
unfolding window_of scan_records store_record
stabilization_recommendation now1 now2 now3 info records = do
  (delay, action) ← window_of info
  up ← deref info.scale_up_behavor
  up_window ← deref up.stabilization_window_seconds
  down ← deref info.scale_down_behavor
  down_window ← deref down.stabilization_window_seconds
  let cutoff = back now1 (seconds delay)
  let obsolete_cutoff = back now2 (seconds (max up_window down_window))
  let start : WindowScan = record { recommendation = info.desired_replicas; old_sample = none }
  let s = scan_records action cutoff obsolete_cutoff 0 records start
  let stored : RecommendationRecord = record {
    desired_replicas = s.recommendation;
    timestamp = now3;
  }
  ok (s.recommendation, store_record s.old_sample stored records)
