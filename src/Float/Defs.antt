-- ===== src/Float/Defs.antt =====
-- The operations of float64 that pkg/zaohua/daofa uses.
use sunwukong.Base.{Bool}
use sunwukong.Base.Int.{ℤ}

pub record Float (F : Type 0) : Type 0 where
  pub of_int : ℤ → F
  pub add : F → F → F
  pub sub : F → F → F
  pub mul : F → F → F
  pub div : F → F → F
  pub abs : F → F
  pub ceil : F → F
  pub lt : F → F → Bool
  pub le : F → F → Bool
  -- the conversions `int32(x)` and `int64(x)`
  pub to_int32 : F → ℤ
  pub to_int64 : F → ℤ
