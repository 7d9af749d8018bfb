-- ===== src/Entities.antt =====
-- The entities that the control plane and the agent share.
pub mod Agent
pub mod AgentJson
pub mod General
pub mod Node
pub mod Cluster
