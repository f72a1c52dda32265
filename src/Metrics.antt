-- ===== src/Metrics.antt =====
-- pkg/zaohua/daofa/metrics: the client of the three metrics APIs, and the averages over a metric.
pub mod Api
pub mod Client
pub mod Utilization
pub mod Reports
pub mod Selected
pub mod Failures
pub mod Order
pub mod Exact
pub mod Safety
