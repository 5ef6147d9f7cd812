-- ===== src/Driver.antt =====
-- pkg/driver: the CSI services of the controller and of the node.
pub mod Locks
pub mod Capability
pub mod Provider
pub mod Controller
pub mod Statuses
pub mod Node
pub mod Provision
pub mod JuicefsProvider
