-- ===== src/Daofa/Replicas.antt =====
-- pkg/zaohua/daofa/replica_calculator.go: the replicas that one metric asks for.
pub mod Balance
pub mod Resource
pub mod Pods
pub mod Object
pub mod External
pub mod Live
pub mod Safety
pub mod Total
pub mod Outcomes
