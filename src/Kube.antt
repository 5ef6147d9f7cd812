-- ===== src/Kube.antt =====
-- The objects of the Kubernetes API, and the calls that the driver makes (pkg/k8sclient/client.go).
mod Objects
mod Effects
mod Calls
mod Invariants
mod Retry
mod Values
unfoldable pub use Objects.*
unfoldable pub use Effects.*
unfoldable pub use Calls.*
unfoldable pub use Invariants.*
unfoldable pub use Retry.*
unfoldable pub use Values.*
