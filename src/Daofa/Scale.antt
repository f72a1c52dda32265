-- ===== src/Daofa/Scale.antt =====
-- `execScale`, `updateStatus` and `detectAndScale` of pkg/zaohua/daofa/zaohua.go.
mod Defs
pub mod Effect
pub mod Sends
pub mod History
pub mod Recorded
pub mod Total
unfoldable pub use Defs.*
