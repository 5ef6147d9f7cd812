-- ===== src/Controller/PodDriver/Annotations.antt =====
-- Run's first part, in pkg/controller/pod_driver.go: the status of a mount pod, its references to
-- app pods that are gone, and the deletion of a mount pod that nobody refers to.
use juicedata_juicefs_csi_dr.Prelude.{
  ℕ, Bool, not, ◌&&◌, Option, none, some, List, [], ◌∷◌, ◌++◌, Str, lit, lookup, get_str, str_eq,
  count, length, keep, map, is_some, is_empty, ◌==◌, if◌then◌else◌,
}
use juicedata_juicefs_csi_dr.Kube.{
  Pod, annotations_of, delete_delay_at_key, M, ◌>>=◌, ◌>>◌, pure, fail, when, attempt, ask,
  conflict, with_lock, get_pod, delete_pod, delete_secret,
}
use juicedata_juicefs_csi_dr.Util.Pods.{
  is_pod_error, is_pod_ready, is_ref, get_all_ref_keys, del_pod_annotation,
}
use juicedata_juicefs_csi_dr.Util.Delay.{should_delay}
use juicedata_juicefs_csi_dr.Controller.MountTable.{MountInfoTable, get_pod_uid}

pub data PodStatus : Type 0 where
  pod_ready pod_error pod_deleted pod_pending : PodStatus

-- `none` is a nil pointer.
unfoldable pub get_pod_status : Option Pod → PodStatus
get_pod_status none = pod_error
get_pod_status (some pod) =
    if pod.deleting
    then pod_deleted
    else if is_pod_error pod
    then pod_error
    else if is_pod_ready pod
    then pod_ready
    else pod_pending

-- Is the app pod of the target among the pods of the table?
unfoldable pub target_exists : MountInfoTable → Str → Bool
target_exists mit target = is_some (lookup (get_pod_uid target) mit.deleted_pods)

unfoldable pub is_stale_ref : (Str → Str) → MountInfoTable → Str × Str → Bool
is_stale_ref hash mit (k, target) = is_ref hash (k, target) && not (target_exists mit target)

unfoldable pub is_live_ref : (Str → Str) → MountInfoTable → Str × Str → Bool
is_live_ref hash mit (k, target) = is_ref hash (k, target) && target_exists mit target

unfoldable pub stale_keys : (Str → Str) → MountInfoTable → Pod → List Str
stale_keys hash mit pod = map (λ kv. kv.0) (keep (is_stale_ref hash mit) (annotations_of pod))

unfoldable pub exist_targets : (Str → Str) → MountInfoTable → Pod → ℕ
exist_targets hash mit pod = count (is_live_ref hash mit) (annotations_of pod)

-- The stale references, and the delay of a deletion that is off again.
unfoldable pub del_annotations : (Str → Str) → MountInfoTable → Pod → List Str
del_annotations hash mit pod =
    stale_keys hash mit pod
    ++ (if not (exist_targets hash mit pod == 0)
          && not (str_eq (get_str delete_delay_at_key (annotations_of pod)) [])
        then delete_delay_at_key ∷ []
        else [])

unfoldable pub remove_annotations_checked : (Str → Str) → Pod → List Str → M (Unit {0})
remove_annotations_checked hash pod keys = do
  new_pod ← get_pod pod.name pod.namespace
  when (not (length (get_all_ref_keys hash new_pod) == length (get_all_ref_keys hash pod)))
      (fail conflict)
  del_pod_annotation pod keys

abbrev pub secret_name_of : Str → Str
secret_name_of pod_name = pod_name ++ lit "-secret"

unfoldable pub delete_unless_referred : (Str → Str) → Pod → M (Unit {0})
delete_unless_referred hash pod = do
  new_pod ← get_pod pod.name pod.namespace
  when (not (length (get_all_ref_keys hash new_pod) == 0)) (fail conflict)
  delete_pod pod
  attempt (delete_secret (secret_name_of pod.name) pod.namespace)
  pure tt

unfoldable pub delete_if_due : (Str → Str) → Pod → M (Unit {0})
delete_if_due hash pod = do
  delay ← should_delay pod
  when (not delay) (delete_unless_referred hash pod)

unfoldable pub check_annotations : MountInfoTable → Pod → M (Unit {0})
check_annotations mit pod = with_lock pod.name do
  hash ← ask (λ env t. env.sha256_hex)
  let keys = del_annotations hash mit pod
  when (not (is_empty keys)) (remove_annotations_checked hash pod keys)
  when (exist_targets hash mit pod == 0 && not pod.deleting) (delete_if_due hash pod)
