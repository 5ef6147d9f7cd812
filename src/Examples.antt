-- ===== src/Examples.antt =====
-- The results at concrete inputs.
pub mod World
pub mod Csi
pub mod Pods
pub mod Driver
pub mod MountPods
pub mod Mounts
pub mod Recycling
pub mod Queues
pub mod Provision
pub mod Config
pub mod Commands
pub mod Provider
pub mod Processes
pub mod Published
