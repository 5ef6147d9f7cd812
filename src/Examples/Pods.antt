-- ===== src/Examples/Pods.antt =====
-- What happens to the mount pod of the examples.
use juicedata_juicefs_csi_dr.Prelude.{
  ◌≡◌, refl, false, [], ◌∷◌, lit, Str, keep, if◌then◌else◌, ◌&&◌, str_eq, any, Bool, Bool-cases,
  inl, inr, true, contains, has_prefix, lookup, insert, delete, count, index,
}
use juicedata_juicefs_csi_dr.Kube.{
  Env, Pod, ok, patch_pod, replace_finalizers, finalizer, stat, Event, Trace, patched_pod,
  not_found, err, deleted_pod, annotations_of, get_pod, list_pod, with_lock, umount,
  cleanup_mount_point, delete_pod, delete_secret, get_persistent_volume, retry_on_conflict,
  retry_steps,
}
use juicedata_juicefs_csi_dr.Util.Guarded.{IsGuarded, AnswersByName}
use juicedata_juicefs_csi_dr.Util.Pods.{
  remove_finalizer, wait_until_mount_ready, get_ref, is_ref, del_pod_annotation,
}
use juicedata_juicefs_csi_dr.Util.Pods.Laws.{
  remove_finalizer-keep, EndsReady, wait-EndsReady, differs_from,
}
use juicedata_juicefs_csi_dr.Juicefs.Provider.Unmount.{
  jfs_unmount, get_unique_id, pods_of, old_pod, unmount_from, pod_with_key, class_or_id, node_query,
  release_pod,
}
use juicedata_juicefs_csi_dr.Juicefs.Provider.Deletions.{jfs_unmount-IsGuarded}
use juicedata_juicefs_csi_dr.Controller.MountTable.{MountInfoTable}
use juicedata_juicefs_csi_dr.Controller.PodDriver.Annotations.{check_annotations}
use juicedata_juicefs_csi_dr.Controller.PodDriver.Deletions.{check_annotations-IsGuarded}
use juicedata_juicefs_csi_dr.Examples.World.{
  empty_world, world_with, world_with-AnswersByName, mount_pod,
}
use juicedata_juicefs_csi_dr.Util.Names.{get_reference_key}
use juicedata_juicefs_csi_dr.Juicefs.PodMount.Mount.{gen_pod_name_by_unique_id}
use juicedata_juicefs_csi_dr.Juicefs.PodMount.Refs.{
  umount_target, umount_all, delete_mount_pod, delete_unless_delayed, get_mount_ref, j_umount,
  remove_ref, remove_ref_once, umount_once,
}
use juicedata_juicefs_csi_dr.Util.Mounts.{says_not_mounted}
use juicedata_juicefs_csi_dr.Util.Delay.{should_delay}

empty-IsGuarded : (hash : Str → Str) → IsGuarded hash []
unfolding IsGuarded
empty-IsGuarded hash = tt

-- The pod that nobody uses, in a world where it is listed.
abbrev unused_pod : Pod
unused_pod = mount_pod []

abbrev unused_world : Env
unused_world = record (world_with unused_pod) { list_pods_reply = λ _ _. ok (unused_pod ∷ []) }

-- The same pod with a reference to the target.
abbrev used_pod : Pod
used_pod = mount_pod ((get_reference_key (λ text. text) (lit "/target"), lit "/target") ∷ [])

abbrev is_patch : Event → Bool
is_patch (patched_pod name namespace p r) = true
is_patch _ = false

abbrev pod_after : Trace → Pod
pod_after t = if any is_patch t then unused_pod else used_pod

-- The pod has the reference until it is patched.
abbrev used_world : Env
used_world = record empty_world {
  list_pods_reply = λ t _. ok (pod_after t ∷ []);
  get_pod_reply = λ t name namespace.
      if str_eq name used_pod.name && str_eq namespace used_pod.namespace
      then ok (pod_after t)
      else err not_found;
}

used_world-AnswersByName : AnswersByName used_world
used_world-AnswersByName t name namespace found e = elim (Bool-cases (any is_patch t)) [
  | inl patched ↦ world_with-AnswersByName unused_pod t name namespace found (rw patched at e)
  | inr fresh ↦ world_with-AnswersByName used_pod t name namespace found (rw fresh at e)
]

jfs_unmount-IsGuarded_example :
    IsGuarded used_world.sha256_hex (jfs_unmount 3 (lit "pvc-1") (lit "/target") used_world []).1
jfs_unmount-IsGuarded_example =
    jfs_unmount-IsGuarded 3 (lit "pvc-1") (lit "/target") used_world [] used_world-AnswersByName
      (empty-IsGuarded used_world.sha256_hex)

abbrev empty_table : MountInfoTable
empty_table = record { mis = []; deleted_pods = [] }

check_annotations-IsGuarded_example :
    IsGuarded unused_world.sha256_hex (check_annotations empty_table unused_pod unused_world []).1
check_annotations-IsGuarded_example =
    check_annotations-IsGuarded empty_table unused_pod unused_world []
      (empty-IsGuarded unused_world.sha256_hex)

remove_finalizer-keep_example :
    remove_finalizer unused_pod finalizer
    ≡ patch_pod unused_pod (replace_finalizers (keep (differs_from finalizer) (finalizer ∷ [])))
remove_finalizer-keep_example = remove_finalizer-keep unused_pod finalizer

-- A host where every path is the root of a mount.
abbrev root_world : Env
root_world = record empty_world {
  stat_reply = λ _ _. ok (record { inode = 1; perm = 0o777; dev = 51 });
}

becomes_ready : (wait_until_mount_ready 2 (lit "/jfs/pvc-1") root_world []).0 ≡ ok tt
unfolding wait_until_mount_ready stat
becomes_ready = refl

wait-EndsReady_example :
    EndsReady (lit "/jfs/pvc-1") (wait_until_mount_ready 2 (lit "/jfs/pvc-1") root_world []).1
wait-EndsReady_example = wait-EndsReady 2 (lit "/jfs/pvc-1") root_world [] becomes_ready

abbrev is_deletion : Event → Bool
is_deletion (deleted_pod name namespace r) = true
is_deletion _ = false

-- The pod of that run is deleted.
unmount_deletes :
    any is_deletion (jfs_unmount 3 (lit "pvc-1") (lit "/target") used_world []).1 ≡ true
unfolding jfs_unmount any str_eq contains has_prefix lookup insert delete count keep index
    annotations_of get_pod list_pod with_lock umount cleanup_mount_point delete_pod delete_secret
    get_persistent_volume patch_pod retry_on_conflict retry_steps get_unique_id pods_of old_pod
    unmount_from pod_with_key class_or_id node_query release_pod gen_pod_name_by_unique_id
    umount_target umount_all delete_mount_pod delete_unless_delayed get_mount_ref j_umount
    remove_ref remove_ref_once umount_once says_not_mounted get_reference_key get_ref is_ref
    del_pod_annotation should_delay
unmount_deletes = refl
