-- ===== src/Util.antt =====
-- pkg/util: what the other packages share.
pub mod Pods
pub mod Jobs
pub mod Names
pub mod Delay
pub mod Mounts
pub mod Guarded
pub mod Escape
pub mod Templates
pub mod Sharing
pub mod Sizes
pub mod MountTable
