-- ===== src/Controller/PodDriver/Deleted.antt =====
-- podDeletedHandler of pkg/controller/pod_driver.go: a mount pod that is being deleted is cleaned up,
-- or deployed again where app pods still refer to it.
use juicedata_juicefs_csi_dr.Prelude.{
  ℕ, zero, suc, true, false, Option, none, some, [], ◌∷◌, Str, GoMap, insert, get_str, lit,
  contains_string, is_empty, if◌then◌else◌,
}
use juicedata_juicefs_csi_dr.Kube.{
  Pod, Pv, Pvc, annotations_of, finalizer, unique_id_key, Err, Result, ok, err, diverged, other, M,
  ◌>>=◌, ◌>>◌, pure, fail, lift, when, attempt, ask, note, started, sleep, with_lock, get_pod,
  create_pod, path_exists, cleanup_mount_point, get_persistent_volume, get_persistent_volume_claim,
  is_not_found, is_timeout,
}
use juicedata_juicefs_csi_dr.Util.Pods.{
  remove_finalizer, is_pod_resource_error, get_mount_path_of_pod, get_all_ref_keys,
  replace_pod_annotation, wait_until_mount_ready,
}
use juicedata_juicefs_csi_dr.Config.Resources.{Requirements, parse_pod_resources}
use juicedata_juicefs_csi_dr.Controller.MountTable.{MountInfoTable}
use juicedata_juicefs_csi_dr.Controller.PodDriver.Recovery.{recover}
use juicedata_juicefs_csi_dr.Util.Mounts.{umount_path}
use juicedata_juicefs_csi_dr.Controller.PodDriver.Redeploy.{renewed}

-- `pod.Spec.Containers[0].Resources = resources`; without a container the index panics.
unfoldable pub with_resources : Pod → Requirements → Result Pod
with_resources pod resources = elim pod.containers [
  | [] ↦ diverged
  | cn ∷ cns ↦ ok (record pod {
    containers = record cn { requests = resources.requests; limits = resources.limits } ∷ cns;
  })
]

-- The claim of a volume; `pv.Spec.ClaimRef` is read without a test for nil.
unfoldable pub claim_of : Pv → M Pvc
claim_of pv = elim pv.claim_ref [
  | none ↦ lift diverged
  | some (name, namespace) ↦ get_persistent_volume_claim name namespace
]

-- OverwirteMountPodResourcesWithPVC
unfoldable pub overwrite_resources : Pod → M Pod
overwrite_resources pod = do
  pv ← get_persistent_volume (get_str unique_id_key (annotations_of pod))
  pvc ← claim_of pv
  parse ← ask (λ env t. env.parse_quantity)
  resources ← lift (
      parse_pod_resources parse (get_str (lit "juicefs/mount-cpu-limit") pvc.annotations)
        (get_str (lit "juicefs/mount-memory-limit") pvc.annotations)
        (get_str (lit "juicefs/mount-cpu-request") pvc.annotations)
        (get_str (lit "juicefs/mount-memory-request") pvc.annotations))
  lift (with_resources pod resources)

abbrev or_same : Pod → Result Pod → M Pod
or_same pod (ok overwritten) = pure overwritten
or_same pod (err e) = pure pod
or_same pod diverged = lift diverged

-- Unmount the old mount point if it can be seen, create the pod, and wait until it is mounted.
unfoldable pub recreate : ℕ → MountInfoTable → Pod → Str → M (Unit {0})
recreate fuel mit pod source = do
  exist ← attempt (path_exists source)
  elim exist [
    | ok found ↦ when found (umount_path source)
    | err e ↦ pure tt
    | diverged ↦ lift diverged
  ]
  resources ← attempt (overwrite_resources (renewed pod))
  new_pod ← or_same (renewed pod) resources
  attempt (create_pod new_pod)
  wait_until_mount_ready fuel source
  recover mit new_pod source

unfoldable pub insert_all : GoMap Str → GoMap Str → GoMap Str
insert_all [] m = m
insert_all ((k, v) ∷ kvs) m = insert_all kvs (insert k v m)

-- The pod was created elsewhere: the references are added to its annotations. An error of the patch
-- is logged, and the `err` that is returned is the one of GetPod, which is nil.
unfoldable pub add_targets : Pod → Pod → GoMap Str → M (Unit {0})
add_targets pod po targets = do
  attempt (replace_pod_annotation pod (insert_all targets (annotations_of po)))
  pure tt

unfoldable pub after_failed_get : ℕ → MountInfoTable → Pod → Str → Err → M (Unit {0})
after_failed_get fuel mit pod source e =
    if is_timeout e
    then fail (other "old pod deleting timeout")
    else if is_not_found e
    then recreate fuel mit pod source
    else pure tt

-- Wait until the old pod is gone, for `fuel` rounds.
unfoldable pub replace_pod : ℕ → MountInfoTable → Pod → Str → GoMap Str → M (Unit {0})
replace_pod zero mit pod source targets = lift diverged
replace_pod (suc fuel) mit pod source targets = do
  r ← attempt (get_pod pod.name pod.namespace)
  elim r [
    | ok po ↦ elim po.deleting [
      | true ↦ do sleep; replace_pod fuel mit pod source targets
      | false ↦ add_targets pod po targets
    ]
    | err e ↦ after_failed_get fuel mit pod source e
    | diverged ↦ lift diverged
  ]

unfoldable pub clean_up : Pod → Str → M (Unit {0})
clean_up pod source = do
  umount_path source
  attempt (cleanup_mount_point source)
  note (started "CleanUpCache" pod.name)

unfoldable pub settle_targets : ℕ → MountInfoTable → Pod → Str → GoMap Str → M (Unit {0})
settle_targets fuel mit pod source targets =
    if is_empty targets
    then clean_up pod source
    else with_lock pod.name (replace_pod fuel mit pod source targets)

unfoldable pub at_mount_path : ℕ → MountInfoTable → Pod → Result (Str × Str) → M (Unit {0})
at_mount_path fuel mit pod (ok (source, volume_id)) = elim pod.annotations [
  | none ↦ pure tt
  | some annotations ↦ do
    hash ← ask (λ env t. env.sha256_hex)
    settle_targets fuel mit pod source (get_all_ref_keys hash pod)
]
at_mount_path fuel mit pod (err e) = pure tt
at_mount_path fuel mit pod diverged = lift diverged

unfoldable pub finalize : ℕ → MountInfoTable → Pod → M (Unit {0})
finalize fuel mit pod = do
  remove_finalizer pod finalizer
  note (started "checkMountPodStuck" pod.name)
  if is_pod_resource_error pod
      then pure tt
      else at_mount_path fuel mit pod (get_mount_path_of_pod pod)

unfoldable pub pod_deleted_handler : ℕ → MountInfoTable → Option Pod → M (Unit {0})
pod_deleted_handler fuel mit none = pure tt
pod_deleted_handler fuel mit (some pod) =
    if contains_string pod.finalizers finalizer then finalize fuel mit pod else pure tt
