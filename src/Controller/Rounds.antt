-- ===== src/Controller/Rounds.antt =====
-- The choice of doReconcile in pkg/controller/reconciler.go: which pods of the kubelet's list are
-- handed to the pod driver, with the status that each showed last.
pub mod Chosen
use juicedata_juicefs_csi_dr.Prelude.{
  Option, ℕ, ◌≡◌, ◌+◌, ◌==◌, ltb, Bool, true, false, not, ◌&&◌, ◌||◌, none, some, List, [], ◌∷◌,
  Str, lit, str_eq, GoMap, lookup, insert, if◌then◌else◌,
}
use juicedata_juicefs_csi_dr.Kube.{Pod}
use juicedata_juicefs_csi_dr.Controller.PodDriver.Annotations.{
  PodStatus, pod_ready, pod_error, pod_deleted, pod_pending, get_pod_status,
}

unfoldable pub status_code : PodStatus → ℕ
status_code pod_ready = 0
status_code pod_error = 1
status_code pod_deleted = 2
status_code pod_pending = 3

abbrev pub same_status : PodStatus → PodStatus → Bool
same_status a b = status_code a == status_code b

-- The status that a pod showed, and when, in seconds.
pub record Synced : Type 0 where
  pub status : PodStatus
  pub sync_at : ℕ

unfoldable pub is_mount_pod : Str → Pod → Bool
is_mount_pod mount_namespace pod =
    str_eq pod.namespace mount_namespace
    && elim (lookup (lit "app.kubernetes.io/name") pod.labels) [
      | none ↦ false
      | some value ↦ str_eq value (lit "juicefs-mount")
    ]

-- For ten minutes, a status is not looked at again.
unfoldable pub is_recent : ℕ → PodStatus → Option Synced → Bool
is_recent now status none = false
is_recent now status (some s) = same_status s.status status && ltb now (s.sync_at + 600)

unfoldable pub is_skipped : ℕ → GoMap Synced → Pod → Bool
is_skipped now last pod = is_recent now (get_pod_status (some pod)) (lookup pod.name last)

unfoldable pub is_due : Str → ℕ → GoMap Synced → Pod → Bool
is_due mount_namespace now last pod =
    is_mount_pod mount_namespace pod && not (is_skipped now last pod)

abbrev pub synced : ℕ → Pod → Synced
synced now pod = record { status = get_pod_status (some pod); sync_at = now }

-- Each pod comes with the time at which the loop meets it; rounds follow one another in the list.
unfoldable pub choose : Str → List (ℕ × Pod) → GoMap Synced → GoMap Synced × List Pod
choose mount_namespace [] last = (last, [])
choose mount_namespace ((now, pod) ∷ pods) last =
    let due = is_due mount_namespace now last pod in
    let (after, chosen) =
      choose mount_namespace pods (if due then insert pod.name (synced now pod) last else last) in
    (after, if due then pod ∷ chosen else chosen)
