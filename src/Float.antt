-- ===== src/Float.antt =====
-- Go's float64, as far as pkg/zaohua/daofa computes with it: any type with these operations.
mod Defs
pub mod Rational
pub use Defs.{Float}
