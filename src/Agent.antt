-- ===== src/Agent.antt =====
-- The agent that wraps MariaDB: internal/agent.
pub mod Manager
pub mod Galera
pub mod Reconciler
pub mod HbCollector
pub mod BootstrapTask
pub mod StateManager
pub mod TaskManager
pub mod Service
pub mod Utils
