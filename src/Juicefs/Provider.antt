-- ===== src/Juicefs/Provider.antt =====
-- The provider of pkg/juicefs/juicefs.go: bind mounts, directories of volumes, and unmounts through
-- mount pods.
pub mod Files
pub mod Unmount
pub mod Commands
pub mod Mounts
pub mod Mounted
pub mod Options
pub mod Limits
pub mod Secrecy
pub mod Version
pub mod Deletions
pub mod Versions
pub mod Minors
