-- ===== src/Daofa.antt =====
-- pkg/zaohua/daofa: how many replicas the metrics ask for, and how the answer is put into effect.
pub mod Records
pub mod Behavior
pub mod Groups
pub mod Requests
pub mod Cluster
pub mod Replicas
pub mod Calculate
pub mod Events
pub mod Scale
pub mod Loop
pub mod Autoscaler
