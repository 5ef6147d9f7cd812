-- ===== src/Driver/Controller.antt =====
-- controllerService of pkg/driver/controller.go. Its state is the capacities of the volumes it has
-- created and the locks of the volumes in deletion; capacities are counts of bytes.
pub mod Create
pub mod Delete
pub mod Expand
pub mod Volumes
pub mod Deletions
pub mod Expansions
