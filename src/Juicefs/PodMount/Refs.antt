-- ===== src/Juicefs/PodMount/Refs.antt =====
-- The references of a mount pod, in pkg/juicefs/mount/pod_mount.go: AddRefOfMount, UmountTarget,
-- GetMountRef and JUmount.
use juicedata_juicefs_csi_dr.Prelude.{
  ℕ, zero, suc, true, false, not, [], ◌∷◌, ◌++◌, Str, lit, GoMap, lookup, insert, delete, is_some,
  str_eq, ◌==◌, if◌then◌else◌,
}
use juicedata_juicefs_csi_dr.Kube.{
  Pod, annotations_of, delete_delay_at_key, ok, err, diverged, other, M, ◌>>=◌, ◌>>◌, pure, fail,
  lift, when, attempt, ask, is_not_found, umount, cleanup_mount_point, get_pod, delete_pod,
  delete_secret, retry_on_conflict,
}
use juicedata_juicefs_csi_dr.Util.Names.{get_reference_key}
use juicedata_juicefs_csi_dr.Util.Mounts.{says_not_mounted}
use juicedata_juicefs_csi_dr.Util.Pods.{get_ref, del_pod_annotation, replace_pod_annotation}
use juicedata_juicefs_csi_dr.Util.Delay.{should_delay}

-- GetMountRef: no references where the pod is not there.
unfoldable pub get_mount_ref : Str → M ℕ
get_mount_ref pod_name = do
  hash ← ask (λ env t. env.sha256_hex)
  namespace ← ask (λ env t. env.mount_namespace)
  r ← attempt (get_pod pod_name namespace)
  elim r [
    | ok pod ↦ pure (get_ref hash pod)
    | err e ↦ if is_not_found e then pure 0 else fail e
    | diverged ↦ lift diverged
  ]

-- The loop of UmountTarget: a target may be mounted many times.
unfoldable pub umount_all : ℕ → Str → M (Unit {0})
umount_all zero target = lift diverged
umount_all (suc fuel) target = do
  out ← umount target
  elim out.failed [
    | false ↦ umount_all fuel target
    | true ↦ if says_not_mounted out.output then pure tt else fail (other "Could not lazy unmount")
  ]

unfoldable pub remove_ref_once : Str → Pod → M (Unit {0})
remove_ref_once key pod = do
  po ← get_pod pod.name pod.namespace
  when (is_some (lookup key (annotations_of po))) (del_pod_annotation pod (key ∷ []))

unfoldable pub remove_ref : Str → Str → M (Unit {0})
remove_ref target pod_name = do
  hash ← ask (λ env t. env.sha256_hex)
  namespace ← ask (λ env t. env.mount_namespace)
  r ← attempt (get_pod pod_name namespace)
  elim r [
    | ok pod ↦ retry_on_conflict (remove_ref_once (get_reference_key hash target) pod)
    | err e ↦ if is_not_found e then pure tt else fail e
    | diverged ↦ lift diverged
  ]

unfoldable pub umount_target : ℕ → Str → Str → M (Unit {0})
umount_target fuel target pod_name = do
  umount_all fuel target
  cleanup_mount_point target
  if str_eq pod_name [] then pure tt else remove_ref target pod_name

abbrev pub secret_name_of : Str → Str
secret_name_of pod_name = pod_name ++ lit "-secret"

unfoldable pub delete_mount_pod : Pod → M (Unit {0})
delete_mount_pod po = do
  delete_pod po
  attempt (delete_secret (secret_name_of po.name) po.namespace)
  pure tt

unfoldable pub delete_unless_delayed : Pod → M (Unit {0})
delete_unless_delayed po = do delay ← should_delay po; when (not delay) (delete_mount_pod po)

unfoldable pub umount_once : Str → M (Unit {0})
umount_once pod_name = do
  hash ← ask (λ env t. env.sha256_hex)
  namespace ← ask (λ env t. env.mount_namespace)
  r ← attempt (get_pod pod_name namespace)
  elim r [
    | ok po ↦ when (get_ref hash po == 0) (delete_unless_delayed po)
    | err e ↦ if is_not_found e then pure tt else fail e
    | diverged ↦ lift diverged
  ]

-- JUmount
unfoldable pub j_umount : Str → M (Unit {0})
j_umount pod_name = retry_on_conflict (umount_once pod_name)

-- The annotations with the reference, and with no time of deletion.
unfoldable pub referred : Str → Str → GoMap Str → GoMap Str
referred key target annotations = delete delete_delay_at_key (insert key target annotations)

unfoldable pub add_ref_once : Str → Str → M (Unit {0})
add_ref_once target pod_name = do
  hash ← ask (λ env t. env.sha256_hex)
  namespace ← ask (λ env t. env.mount_namespace)
  exist ← get_pod pod_name namespace
  let key = get_reference_key hash target
  if exist.deleting
      then fail (other "Mount pod has been deleted")
      else if is_some (lookup key (annotations_of exist))
      then pure tt
      else replace_pod_annotation exist (referred key target (annotations_of exist))

-- AddRefOfMount
unfoldable pub add_ref_of_mount : Str → Str → M (Unit {0})
add_ref_of_mount target pod_name = retry_on_conflict (add_ref_once target pod_name)
