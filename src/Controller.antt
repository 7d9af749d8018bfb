-- ===== src/Controller.antt =====
-- The controllers of internal/controller. A reconciliation returns its result and the storage.
pub mod Cluster
pub mod Node
pub mod Outcome
pub mod Stuck
pub mod K8s
