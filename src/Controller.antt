-- ===== src/Controller.antt =====
-- pkg/controller: the controllers that keep mount pods and their targets in step.
pub mod MountTable
pub mod PodDriver
pub mod Recycling
pub mod Recycled
pub mod Discarded
pub mod MountPods
pub mod Rounds
pub mod AppQueue
pub mod AppHooks
pub mod Queued
