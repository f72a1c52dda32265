-- ===== src/Daofa/Records.antt =====
-- The two histories that pkg/zaohua/daofa/zaohua.go keeps in package variables, and the package's
-- functions `max` and `min`.
use sunwukong.Base.{Bool, if◌then◌else◌}
use sunwukong.Base.Int.{ℤ, leb_ℤ}
use sunwukong.Kube.Time.{Time}

-- `TimestampedRecommendationRecord`
pub record RecommendationRecord : Type 0 where
  pub desired_replicas : ℤ
  pub timestamp : Time

-- `TimestampedScaleEvent`
pub record ScaleEvent : Type 0 where
  pub replica_change : ℤ
  pub timestamp : Time
  pub outdated : Bool

unfoldable pub max : ℤ → ℤ → ℤ
max a b = if leb_ℤ a b then a else b

unfoldable pub min : ℤ → ℤ → ℤ
min a b = if leb_ℤ a b then a else b
