-- ===== src/Juicefs.antt =====
-- pkg/juicefs: the provider that mounts file systems for the CSI services.
pub mod Settings
pub mod PodMount
pub mod ProcessMount
pub mod Builder
pub mod Provider
