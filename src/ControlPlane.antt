-- ===== src/ControlPlane.antt =====
-- The control plane of cmd/controller-manager/main.go as a whole: the controllers and the state API
-- over one storage, interleaved in any order.
pub mod Plans
pub mod Members
pub mod Census
pub mod Writes
pub mod Creations
pub mod Planned
pub mod Reports
pub mod Start
pub mod System
pub mod Safety
pub mod Stale
pub mod Activation
pub mod Order
pub mod Growth
pub mod Places
pub mod InOrder
pub mod ScaleUp
pub mod AllActive
pub mod Activate
pub mod Recovery
pub mod Ticked
pub mod LateCreation
