-- ===== src/Driver/Node.antt =====
-- nodeService of pkg/driver/node.go: publish and unpublish volumes, and tell their use.
pub mod Publish
pub mod Stats
pub mod Usage
pub mod Binding
