-- ===== src/Juicefs/PodMount.antt =====
-- pkg/juicefs/mount/pod_mount.go: mounts by mount pods, which count their references in their
-- annotations.
pub mod Refs
pub mod Jobs
pub mod Mount
pub mod Deletions
pub mod Names
pub mod References
pub mod Unmounts
pub mod JobEnds
pub mod Creations
pub mod Referring
pub mod Ready
