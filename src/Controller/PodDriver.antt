-- ===== src/Controller/PodDriver.antt =====
-- pkg/controller/pod_driver.go: what the node does for one mount pod. The handlers stand in the
-- modules below; Run dispatches to them.
pub mod Annotations
pub mod Recovery
pub mod Redeploy
pub mod Deleted
pub mod Stuck
pub mod Deletions
pub mod References
pub mod Limits
pub mod Creations
pub mod Remounts
pub mod Retired
use juicedata_juicefs_csi_dr.Prelude.{
  ℕ, Bool, true, false, Option, none, some, List, [], ◌∷◌, Str, ◌==◌, if◌then◌else◌,
}
use juicedata_juicefs_csi_dr.Kube.{
  Pod, FileInfo, Result, ok, err, diverged, M, ◌>>=◌, ◌>>◌, pure, lift, when, attempt, note,
  stored_minor, get_pod, stat,
}
use juicedata_juicefs_csi_dr.Util.Names.{dev_minor}
use juicedata_juicefs_csi_dr.Util.Pods.{get_mount_path_of_pod}
use juicedata_juicefs_csi_dr.Controller.MountTable.{MountInfoTable, set_pod_status}
use Annotations.{
  PodStatus, pod_ready, pod_error, pod_deleted, pod_pending, get_pod_status, check_annotations,
}
use Recovery.{recover}
use Redeploy.{pod_error_handler, pod_pending_handler}
use Deleted.{pod_deleted_handler}

unfoldable pub recover_mounted : MountInfoTable → Pod → Str → Result FileInfo → M (Unit {0})
recover_mounted mit pod mnt_path (ok info) = do
  when (info.inode == 1) (note (stored_minor mnt_path (dev_minor info.dev)))
  recover mit pod mnt_path
recover_mounted mit pod mnt_path (err e) = pure tt
recover_mounted mit pod mnt_path diverged = lift diverged

unfoldable pub ready_at : MountInfoTable → Pod → Result (Str × Str) → M (Unit {0})
ready_at mit pod (ok (mnt_path, volume_id)) = do
  r ← attempt (stat mnt_path)
  recover_mounted mit pod mnt_path r
ready_at mit pod (err e) = pure tt
ready_at mit pod diverged = lift diverged

unfoldable pub pod_ready_handler : MountInfoTable → Option Pod → M (Unit {0})
pod_ready_handler mit none = pure tt
pod_ready_handler mit (some pod) = elim pod.annotations [
  | none ↦ pure tt
  | some annotations ↦ ready_at mit pod (get_mount_path_of_pod pod)
]

-- The table `handlers` of newPodDriver.
unfoldable pub handle : ℕ → MountInfoTable → PodStatus → Option Pod → M (Unit {0})
handle fuel mit pod_ready pod = pod_ready_handler mit pod
handle fuel mit pod_error pod = pod_error_handler fuel pod
handle fuel mit pod_pending pod = pod_pending_handler fuel pod
handle fuel mit pod_deleted pod = pod_deleted_handler fuel mit pod

-- A pod that failed or is deleted is read again, since the kubelet may be behind the API server.
unfoldable pub refreshed : ℕ → MountInfoTable → Pod → M (Unit {0})
refreshed fuel mit current = do
  pod ← get_pod current.name current.namespace
  handle fuel (set_pod_status mit pod) (get_pod_status (some pod)) (some pod)

unfoldable pub dispatch : ℕ → MountInfoTable → Pod → PodStatus → M (Unit {0})
dispatch fuel mit current pod_error = refreshed fuel mit current
dispatch fuel mit current pod_deleted = refreshed fuel mit current
dispatch fuel mit current status = handle fuel mit status (some current)

unfoldable pub run : ℕ → MountInfoTable → Pod → M (Unit {0})
run fuel mit current = do
  check_annotations mit current
  dispatch fuel mit current (get_pod_status (some current))
