-- ===== src/Juicefs/Provider/Unmount.antt =====
-- JfsUnmount and getUniqueId of pkg/juicefs/juicefs.go, where mounts are made by mount pods.
use juicedata_juicefs_csi_dr.Prelude.{
  ℕ, not, ◌&&◌, none, List, [], ◌∷◌, ◌++◌, Str, lit, lookup, is_some, is_empty, ◌==◌, if◌then◌else◌,
}
use juicedata_juicefs_csi_dr.Kube.{
  Pod, Pv, annotations_of, ok, err, diverged, Query, M, ◌>>=◌, ◌>>◌, pure, fail, lift, when,
  attempt, ask, is_not_found, with_lock, get_pod, list_pod, get_persistent_volume,
}
use juicedata_juicefs_csi_dr.Util.Names.{get_reference_key}
use juicedata_juicefs_csi_dr.Juicefs.PodMount.Refs.{get_mount_ref, umount_target, j_umount}
use juicedata_juicefs_csi_dr.Juicefs.PodMount.Mount.{gen_pod_name_by_unique_id}

unfoldable pub class_or_id : Str → Pv → Str
class_or_id volume_id pv = if is_empty pv.storage_class then volume_id else pv.storage_class

-- With shared mounts, a volume of a storage class goes by the class.
unfoldable pub get_unique_id : Str → M Str
get_unique_id volume_id = do
  share ← ask (λ env t. env.share_mount && not env.by_process)
  if not share then pure volume_id else do
    r ← attempt (get_persistent_volume volume_id)
    elim r [
      | ok pv ↦ pure (class_or_id volume_id pv)
      | err e ↦ if is_not_found e then pure volume_id else fail e
      | diverged ↦ lift diverged
    ]

-- The pod of the old naming scheme, if it is there.
unfoldable pub old_pod : Str → M (List Pod)
old_pod unique_id = do
  node ← ask (λ env t. env.node)
  namespace ← ask (λ env t. env.mount_namespace)
  r ← attempt (get_pod (gen_pod_name_by_unique_id node unique_id none) namespace)
  elim r [
    | ok pod ↦ pure (pod ∷ [])
    | err e ↦ if is_not_found e then pure [] else fail e
    | diverged ↦ lift diverged
  ]

unfoldable pub node_query : Str → Str → Str → Query
node_query namespace unique_id node = record {
  namespace = namespace;
  labels = (lit "app.kubernetes.io/name", lit "juicefs-mount") ∷ (lit "volume-id", unique_id) ∷ [];
  fields = (lit "spec.nodeName", node) ∷ [];
  keys = [];
}

unfoldable pub pods_of : Str → M (List Pod)
pods_of unique_id = do
  old ← old_pod unique_id
  namespace ← ask (λ env t. env.mount_namespace)
  node ← ask (λ env t. env.node)
  pods ← list_pod (node_query namespace unique_id node)
  pure (old ++ pods)

-- The name of the first pod that has the key among its annotations; empty if there is none.
unfoldable pub pod_with_key : Str → List Pod → Str
pod_with_key key [] = []
pod_with_key key (po ∷ pods) =
    if is_some (lookup key (annotations_of po)) then po.name else pod_with_key key pods

unfoldable pub release_pod : Str → M (Unit {0})
release_pod pod_name = do refs ← get_mount_ref pod_name; when (refs == 0) (j_umount pod_name)

unfoldable pub unmount_from : ℕ → Str → Str → M (Unit {0})
unmount_from fuel mount_path pod_name =
    with_lock pod_name do
      umount_target fuel mount_path pod_name
      when (not (is_empty pod_name)) (release_pod pod_name)

unfoldable pub jfs_unmount : ℕ → Str → Str → M (Unit {0})
jfs_unmount fuel volume_id mount_path = do
  unique_id ← get_unique_id volume_id
  pods ← pods_of unique_id
  hash ← ask (λ env t. env.sha256_hex)
  unmount_from fuel mount_path (pod_with_key (get_reference_key hash mount_path) pods)
