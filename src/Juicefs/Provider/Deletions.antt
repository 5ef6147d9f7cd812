-- ===== src/Juicefs/Provider/Deletions.antt =====
-- Which mount pods JfsUnmount of pkg/juicefs/juicefs.go deletes.
use juicedata_juicefs_csi_dr.Prelude.{
  ℕ, zero, suc, ◌∷◌, Bool, true, false, not, Str, str_eq, lookup, [], ◌++◌, ◌&&◌, ◌==◌, is_empty,
  is_some, if◌then◌else◌,
}
use juicedata_juicefs_csi_dr.Kube.{
  Pod, annotations_of, pure, fail, other, pure-Keeps, fail-Keeps, ask-Keeps, unless-Keeps, Env,
  Trace, M, umount, cleanup_mount_point, list_pod, Query, Keeps, bind-Keeps, attempt-Keeps,
  when-Keeps, or_absent-Keeps, with_lock-Keeps, retry_on_conflict-Keeps, get_persistent_volume,
}
use juicedata_juicefs_csi_dr.Util.Pods.{get_ref}
use juicedata_juicefs_csi_dr.Util.Names.{get_reference_key}
use juicedata_juicefs_csi_dr.Util.Mounts.{says_not_mounted}
use juicedata_juicefs_csi_dr.Util.Guarded.{
  IsGuarded, AnswersByName, del_pod_annotation-Keeps, get_pod-Keeps,
}
use juicedata_juicefs_csi_dr.Juicefs.PodMount.Refs.{
  umount_all, remove_ref_once, remove_ref, umount_target, get_mount_ref,
}
use juicedata_juicefs_csi_dr.Juicefs.PodMount.Deletions.{j_umount-Keeps}
use juicedata_juicefs_csi_dr.Juicefs.Provider.Unmount.{
  get_unique_id, class_or_id, pod_with_key, old_pod, pods_of, release_pod, unmount_from,
  jfs_unmount,
}

module _ (hash : Str → Str) {env : Env} where
  umount-Keeps : (path : Str) → Keeps env (IsGuarded hash) (umount path)
  unfolding umount IsGuarded
  umount-Keeps path = record { kept = λ t h. (tt, h) }

  cleanup-Keeps : (path : Str) → Keeps env (IsGuarded hash) (cleanup_mount_point path)
  unfolding cleanup_mount_point IsGuarded
  cleanup-Keeps path = record { kept = λ t h. (tt, h) }

  list_pod-Keeps : (q : Query) → Keeps env (IsGuarded hash) (list_pod q)
  unfolding list_pod IsGuarded
  list_pod-Keeps q = record { kept = λ t h. (tt, h) }

  get_pv-Keeps : (name : Str) → Keeps env (IsGuarded hash) (get_persistent_volume name)
  unfolding get_persistent_volume IsGuarded
  get_pv-Keeps name = record { kept = λ t h. (tt, h) }

  -- What an umount is followed by: another one, or the end of the loop.
  after_umount-Keeps :
      (failed : Bool) (output : Str) {m : M (Unit {0})}
      → Keeps env (IsGuarded hash) m
      → Keeps env (IsGuarded hash) (elim failed [
        | false ↦ m
        | true ↦ if says_not_mounted output then pure tt else fail (other "Could not lazy unmount")
      ])
  after_umount-Keeps false output h = h
  after_umount-Keeps true output h =
      unless-Keeps (says_not_mounted output) tt (λ _. fail-Keeps (other "Could not lazy unmount"))

  umount_all-Keeps : (fuel : ℕ) (target : Str) → Keeps env (IsGuarded hash) (umount_all fuel target)
  unfolding umount_all
  umount_all-Keeps zero target = record { kept = λ t h. h }
  umount_all-Keeps (suc fuel) target =
      bind-Keeps (umount-Keeps target)
        (λ out. after_umount-Keeps out.failed out.output (umount_all-Keeps fuel target))

  remove_ref_once-Keeps :
      (key : Str) (pod : Pod) → Keeps env (IsGuarded hash) (remove_ref_once key pod)
  unfolding remove_ref_once
  remove_ref_once-Keeps key pod = bind-Keeps (get_pod-Keeps hash pod.name pod.namespace) (λ po.
      when-Keeps (is_some (lookup key (annotations_of po)))
        (λ _. del_pod_annotation-Keeps hash pod _))

  remove_ref-Keeps :
      (target pod_name : Str) → Keeps env (IsGuarded hash) (remove_ref target pod_name)
  unfolding remove_ref
  remove_ref-Keeps target pod_name = bind-Keeps (ask-Keeps (λ env t. env.sha256_hex)) (λ sha.
      bind-Keeps (ask-Keeps (λ env t. env.mount_namespace)) (λ namespace.
        bind-Keeps (attempt-Keeps (get_pod-Keeps hash pod_name namespace)) (λ r.
          or_absent-Keeps r tt (λ pod.
            retry_on_conflict-Keeps (remove_ref_once-Keeps (get_reference_key sha target) pod)))))

  umount_target-Keeps :
      (fuel : ℕ) (target pod_name : Str)
      → Keeps env (IsGuarded hash) (umount_target fuel target pod_name)
  unfolding umount_target
  umount_target-Keeps fuel target pod_name = bind-Keeps (umount_all-Keeps fuel target) (λ _.
      bind-Keeps (cleanup-Keeps target)
        (λ _. unless-Keeps (str_eq pod_name []) tt (λ _. remove_ref-Keeps target pod_name)))

  get_mount_ref-Keeps : (pod_name : Str) → Keeps env (IsGuarded hash) (get_mount_ref pod_name)
  unfolding get_mount_ref
  get_mount_ref-Keeps pod_name = bind-Keeps (ask-Keeps (λ env t. env.sha256_hex)) (λ sha.
      bind-Keeps (ask-Keeps (λ env t. env.mount_namespace)) (λ namespace.
        bind-Keeps (attempt-Keeps (get_pod-Keeps hash pod_name namespace))
          (λ r. or_absent-Keeps r 0 (λ pod. pure-Keeps (get_ref sha pod)))))

  get_unique_id-Keeps : (volume_id : Str) → Keeps env (IsGuarded hash) (get_unique_id volume_id)
  unfolding get_unique_id
  get_unique_id-Keeps volume_id =
      bind-Keeps (ask-Keeps (λ env t. env.share_mount && not env.by_process)) (λ share.
        unless-Keeps (not share) volume_id (λ _.
          bind-Keeps (attempt-Keeps (get_pv-Keeps volume_id))
            (λ r. or_absent-Keeps r volume_id (λ pv. pure-Keeps (class_or_id volume_id pv)))))

  old_pod-Keeps : (unique_id : Str) → Keeps env (IsGuarded hash) (old_pod unique_id)
  unfolding old_pod
  old_pod-Keeps unique_id = bind-Keeps (ask-Keeps (λ env t. env.node)) (λ node.
      bind-Keeps (ask-Keeps (λ env t. env.mount_namespace)) (λ namespace.
        bind-Keeps (attempt-Keeps (get_pod-Keeps hash _ namespace))
          (λ r. or_absent-Keeps r [] (λ pod. pure-Keeps (pod ∷ [])))))

  pods_of-Keeps : (unique_id : Str) → Keeps env (IsGuarded hash) (pods_of unique_id)
  unfolding pods_of
  pods_of-Keeps unique_id = bind-Keeps (old_pod-Keeps unique_id) (λ old.
      bind-Keeps (ask-Keeps (λ env t. env.mount_namespace)) (λ namespace.
        bind-Keeps (ask-Keeps (λ env t. env.node))
          (λ node. bind-Keeps (list_pod-Keeps _) (λ pods. pure-Keeps (old ++ pods)))))

module _ {env : Env} (named : AnswersByName env) where
  release_pod-Keeps : (pod_name : Str) → Keeps env (IsGuarded env.sha256_hex) (release_pod pod_name)
  unfolding release_pod
  release_pod-Keeps pod_name =
      bind-Keeps (get_mount_ref-Keeps _ pod_name)
        (λ refs. when-Keeps (refs == 0) (λ _. j_umount-Keeps env pod_name named))

  unmount_from-Keeps :
      (fuel : ℕ) (mount_path pod_name : Str)
      → Keeps env (IsGuarded env.sha256_hex) (unmount_from fuel mount_path pod_name)
  unfolding unmount_from IsGuarded
  unmount_from-Keeps fuel mount_path pod_name =
      with_lock-Keeps pod_name (λ t h. (tt, h)) (λ t h. (tt, h))
        (bind-Keeps (umount_target-Keeps env.sha256_hex fuel mount_path pod_name)
          (λ _. when-Keeps (not (is_empty pod_name)) (λ _. release_pod-Keeps pod_name)))

  jfs_unmount-Keeps :
      (fuel : ℕ) (volume_id mount_path : Str)
      → Keeps env (IsGuarded env.sha256_hex) (jfs_unmount fuel volume_id mount_path)
  unfolding jfs_unmount
  jfs_unmount-Keeps fuel volume_id mount_path =
      bind-Keeps (get_unique_id-Keeps _ volume_id) (λ unique_id.
        bind-Keeps (pods_of-Keeps _ unique_id) (λ pods.
          bind-Keeps (ask-Keeps (λ env t. env.sha256_hex)) (λ sha.
            unmount_from-Keeps fuel mount_path
              (pod_with_key (get_reference_key sha mount_path) pods))))

-- Every mount pod that JfsUnmount deletes was seen, by the call right before, to have no references
-- left, however its calls are answered and whichever of them fail.
pub jfs_unmount-IsGuarded :
    (fuel : ℕ) (volume_id mount_path : Str) (env : Env) (t : Trace)
    → AnswersByName env
    → IsGuarded env.sha256_hex t
    → IsGuarded env.sha256_hex (jfs_unmount fuel volume_id mount_path env t).1
jfs_unmount-IsGuarded fuel volume_id mount_path env t named h =
    (jfs_unmount-Keeps named fuel volume_id mount_path).kept t h
