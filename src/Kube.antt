-- ===== src/Kube.antt =====
-- The types of k8s.io/api and of Go's `time`, with the fields that the code reads.
pub mod Time
pub mod Names
pub mod Pods
pub mod Autoscaling
