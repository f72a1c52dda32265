-- ===== src/Daofa/Behavior.antt =====
-- pkg/zaohua/daofa/behavor_processor.go: how the rules of a `Behavior` revise a number of replicas.
-- Every call of `time.Now()` is a reading that the caller hands in; in a loop it is a stream.
mod Stabilization
mod Rates
mod Revision
pub mod Window
pub mod Limits
pub mod Revise
pub mod Total
pub mod Exact
pub mod Errors
unfoldable pub use Stabilization.*
unfoldable pub use Rates.*
unfoldable pub use Revision.*
