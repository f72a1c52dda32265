-- ===== src/Tests.antt =====
-- The theorems at concrete inputs, and runs of the code.
mod Fixture
pub mod Metrics
pub mod Behavior
pub mod Replicas
pub mod Scale
pub mod Rounds
pub mod Runs
pub mod Copies
pub mod Startup
pub mod Registration
pub mod Controller
pub mod Loop
pub mod ZaohuaController
