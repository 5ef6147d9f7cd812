-- ===== src/Util/Pods.antt =====
-- pkg/util/pod.go: the status of a mount pod, its references, and the patches of its metadata.
pub mod Laws
use juicedata_juicefs_csi_dr.Prelude.{
  ℕ, zero, suc, ◌+◌, Bool, true, false, not, ◌&&◌, ◌||◌, Option, none, some, List, [], ◌∷◌, ◌++◌,
  Str, lit, GoMap, lookup, str_eq, contains, count, any, keep, length, take, drop, get_elem?, ltb,
  is_empty, map, if◌then◌else◌, ◌==◌,
}
use juicedata_juicefs_csi_dr.Kube.{
  Pod, Container, Condition, ContainerStatus, Patch, replace_finalizers, add_labels,
  add_annotations, remove_annotations, replace_annotations, annotations_of, condition_true,
  condition_false, Env, M, Result, ok, err, diverged, other, Err, deadline_exceeded, canceled,
  ◌>>=◌, ◌>>◌, attempt, fail, pure, note, lift, sleep, stat, stored_minor, patch_pod, FileInfo,
}
use juicedata_juicefs_csi_dr.Util.Names.{get_reference_key, parse_mnt_path, dev_minor}

unfoldable pub counts_as_ready : Condition → Bool
counts_as_ready cond =
    str_eq cond.status condition_true
    && (str_eq cond.kind (lit "ContainersReady") || str_eq cond.kind (lit "Ready"))

unfoldable pub is_pod_ready : Pod → Bool
is_pod_ready pod = count counts_as_ready pod.conditions == 2

abbrev waits_in_error : Option Str → Bool
waits_in_error none = false
waits_in_error (some reason) = not (str_eq reason (lit "ContainerCreating"))

abbrev terminated_in_error : Option (ℕ × Str) → Bool
terminated_in_error none = false
terminated_in_error (some (exit_code, reason)) = not (exit_code == 0)

unfoldable pub contain_error : List ContainerStatus → Bool
contain_error statuses =
    any (λ s. waits_in_error s.waiting || terminated_in_error s.terminated) statuses

unfoldable pub is_pod_error : Pod → Bool
is_pod_error pod =
    if str_eq pod.phase (lit "Failed") || str_eq pod.phase (lit "Unknown")
    then true
    else contain_error pod.container_statuses

unfoldable pub lacks_resource : Condition → Bool
lacks_resource cond =
    str_eq cond.status condition_false
    && (str_eq cond.kind (lit "PodScheduled")
        && (str_eq cond.reason (lit "Unschedulable")
            && (contains cond.message (lit "Insufficient cpu")
                || contains cond.message (lit "Insufficient memory"))))

unfoldable pub is_pod_resource_error : Pod → Bool
is_pod_resource_error pod =
    if str_eq pod.phase (lit "Failed")
      && (contains pod.reason (lit "OutOf")
          || (str_eq pod.reason (lit "UnexpectedAdmissionError")
              && contains pod.message (lit "to reclaim resources")))
    then true
    else any lacks_resource pod.conditions

unfoldable pub without_resources : Container → Container
without_resources cn = record cn { requests = []; limits = [] }

unfoldable pub delete_resource_of_pod : Pod → Pod
delete_resource_of_pod pod = record pod { containers = map without_resources pod.containers }

unfoldable pub has_requests : Container → Bool
has_requests cn = not (is_empty cn.requests)

unfoldable pub is_pod_has_resource : Pod → Bool
is_pod_has_resource pod = any has_requests pod.containers

-- GetMountPathOfPod: the mount path and the volume id in the command of the first container.
unfoldable pub get_mount_path_of_pod : Pod → Result (Str × Str)
get_mount_path_of_pod pod = elim pod.containers [
  | [] ↦ err (other "pod has no container")
  | cn ∷ cns ↦ elim (get_elem? cn.command 2) [
    | none ↦ err (other "get error pod command")
    | some cmd ↦ parse_mnt_path cmd
  ]
]

-- The loop of RemoveFinalizer: `f[i]` is cut out, and `i` is not moved. Each round leaves one
-- finalizer less to look at, so their number is fuel enough.
unfoldable pub remove_loop : ℕ → Str → ℕ → List Str → List Str
remove_loop zero finalizer i f = f
remove_loop (suc fuel) finalizer i f = elim (get_elem? f i) [
  | none ↦ f
  | some x ↦ elim (str_eq x finalizer) [
    | true ↦ remove_loop fuel finalizer i (take i f ++ drop (suc i) f)
    | false ↦ remove_loop fuel finalizer (suc i) f
  ]
]

unfoldable pub remove_finalizer : Pod → Str → M (Unit {0})
remove_finalizer pod finalizer =
    patch_pod pod
      (replace_finalizers (remove_loop (length pod.finalizers) finalizer 0 pod.finalizers))

unfoldable pub add_pod_label : Pod → GoMap Str → M (Unit {0})
add_pod_label pod labels = patch_pod pod (add_labels labels)

unfoldable pub add_pod_annotation : Pod → GoMap Str → M (Unit {0})
add_pod_annotation pod annotations = patch_pod pod (add_annotations annotations)

unfoldable pub del_pod_annotation : Pod → List Str → M (Unit {0})
del_pod_annotation pod keys = patch_pod pod (remove_annotations keys)

unfoldable pub replace_pod_annotation : Pod → GoMap Str → M (Unit {0})
replace_pod_annotation pod annotations = patch_pod pod (replace_annotations annotations)

-- Is the annotation a reference: the key of its own value?
unfoldable pub is_ref : (Str → Str) → Str × Str → Bool
is_ref sha256_hex (k, target) = str_eq k (get_reference_key sha256_hex target)

unfoldable pub get_all_ref_keys : (Str → Str) → Pod → GoMap Str
get_all_ref_keys sha256_hex pod = keep (is_ref sha256_hex) (annotations_of pod)

-- GetRef of pkg/juicefs/mount/pod_mount.go
unfoldable pub get_ref : (Str → Str) → Pod → ℕ
get_ref sha256_hex pod = count (is_ref sha256_hex) (annotations_of pod)

abbrev ends_wait : Err → Bool
ends_wait canceled = true
ends_wait deadline_exceeded = true
ends_wait _ = false

abbrev not_ready : Err
not_ready = other "mount point is not ready"

-- One round of WaitUtilMountReady; `rest` are the rounds after it.
unfoldable pub wait_round : Str → Result FileInfo → M (Unit {0}) → M (Unit {0})
wait_round path (err e) rest = elim (ends_wait e) [ true ↦ fail not_ready | false ↦ do sleep; rest ]
wait_round path (ok info) rest = elim (info.inode == 1) [
  | true ↦ note (stored_minor path (dev_minor info.dev))
  | false ↦ do sleep; rest
]
wait_round path diverged rest = lift diverged

-- WaitUtilMountReady, for `fuel` rounds. The deadline of 30 seconds is an answer of `stat`.
unfoldable pub wait_until_mount_ready : ℕ → Str → M (Unit {0})
unfolding wait_round
wait_until_mount_ready zero path = lift diverged
wait_until_mount_ready (suc fuel) path = do
  r ← attempt (stat path)
  wait_round path r (wait_until_mount_ready fuel path)
