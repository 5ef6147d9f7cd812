-- ===== src/Controller/PodDriver/Recovery.antt =====
-- recover and recoverTarget of pkg/controller/pod_driver.go: bind the targets of app pods again
-- after a mount pod came back.
use juicedata_juicefs_csi_dr.Prelude.{
  ℕ, zero, suc, Option, none, some, List, [], ◌∷◌, ◌++◌, Str, lit, GoMap, str_eq, ltb,
  if◌then◌else◌,
}
use juicedata_juicefs_csi_dr.Kube.{
  Pod, annotations_of, ok, err, diverged, other, M, ◌>>=◌, ◌>>◌, pure, fail, lift, when, attempt,
  ask, unmount, bind_mount, stat, parse_mount_info,
}
use juicedata_juicefs_csi_dr.Util.Pods.{is_ref}
use juicedata_juicefs_csi_dr.Util.Mounts.{umount_path}
use juicedata_juicefs_csi_dr.Controller.MountTable.{
  MountInfoTable, TargetItem, TargetStatus, MountItem, resolve_target,
}

abbrev pub default_target_mount_counts : ℕ
default_target_mount_counts = 5

-- The mounter's Unmount, `count` times; errors are ignored.
unfoldable pub umount_target : Str → ℕ → M (Unit {0})
umount_target target zero = pure tt
umount_target target (suc n) = do attempt (unmount target); umount_target target n

-- The count of a target in a fresh table: that of the base target, or of the last subpath target
-- that has the name.
unfoldable pub count_of : Str → ℕ → List TargetItem → ℕ
count_of target n [] = n
count_of target n (t ∷ ts) = count_of target (if str_eq t.target target then t.count else n) ts

unfoldable pub mount_count : Str → MountItem → ℕ
mount_count target mi =
    if str_eq mi.base_target.target target
    then mi.base_target.count
    else count_of target mi.base_target.count mi.sub_path_target

-- `select` waits for the end of the context after the first umount, since it has no other case.
unfoldable pub umount_and_wait : Str → M (Unit {0})
umount_and_wait target = do umount_path target; fail (other "umountTargetWithRemain timeout")

unfoldable pub remain_reached : Str → ℕ → Option MountItem → M (Unit {0})
remain_reached target remain_count none = fail (other "pod target resolve fail")
remain_reached target remain_count (some mi) =
    if ltb (mount_count target mi) remain_count then pure tt else umount_and_wait target

unfoldable pub umount_target_until_remain : MountItem → Str → ℕ → M (Unit {0})
umount_target_until_remain base target remain_count = do
  mis ← parse_mount_info
  mi ← resolve_target (record { mis = mis; deleted_pods = [] }) base.base_target.target
  remain_reached target remain_count mi

unfoldable pub bind_target : Str → Str → M (Unit {0})
bind_target source target = do attempt (bind_mount source target); pure tt

-- A subpath is bound only if it is there.
unfoldable pub bind_checked : Str → TargetItem → M (Unit {0})
bind_checked source ti = if str_eq ti.subpath [] then bind_target source ti.target else do
  found ← attempt (stat (source ++ (lit "/" ++ ti.subpath)))
  elim found [
    | ok info ↦ bind_target (source ++ (lit "/" ++ ti.subpath)) ti.target
    | err e ↦ pure tt
    | diverged ↦ lift diverged
  ]

unfoldable pub recover_corrupt : Str → TargetItem → MountItem → M (Unit {0})
recover_corrupt source ti mi =
    if ti.inconsistent then pure tt else if mi.pod_deleted then pure tt else do
      remains ← attempt (umount_target_until_remain mi ti.target default_target_mount_counts)
      elim remains [ ok u ↦ bind_checked source ti | err e ↦ pure tt | diverged ↦ lift diverged ]

unfoldable pub recover_by_status : Str → TargetItem → MountItem → TargetStatus → M (Unit {0})
recover_by_status source ti mi TargetStatus.target_not_exist =
    when mi.pod_deleted (umount_target ti.target ti.count)
recover_by_status source ti mi TargetStatus.target_mounted = pure tt
recover_by_status source ti mi TargetStatus.target_not_mount = pure tt
recover_by_status source ti mi TargetStatus.target_corrupt = recover_corrupt source ti mi
recover_by_status source ti mi TargetStatus.target_unexpect = pure tt

unfoldable pub recover_target : Str → TargetItem → MountItem → M (Unit {0})
unfolding recover_by_status
recover_target source ti mi = recover_by_status source ti mi ti.status

unfoldable pub recover_targets : Str → List TargetItem → MountItem → M (Unit {0})
recover_targets source [] mi = pure tt
recover_targets source (ti ∷ tis) mi = do recover_target source ti mi; recover_targets source tis mi

unfoldable pub recover_item : Str → Option MountItem → M (Unit {0})
recover_item source none = pure tt
recover_item source (some mi) = do
  recover_target source mi.base_target mi
  recover_targets source mi.sub_path_target mi

unfoldable pub recover_refs : (Str → Str) → MountInfoTable → Str → GoMap Str → M (Unit {0})
recover_refs hash mit source [] = pure tt
recover_refs hash mit source ((k, target) ∷ annotations) = do
  when (is_ref hash (k, target)) do mi ← resolve_target mit target; recover_item source mi
  recover_refs hash mit source annotations

unfoldable pub recover : MountInfoTable → Pod → Str → M (Unit {0})
recover mit pod mnt_path = do
  hash ← ask (λ env t. env.sha256_hex)
  recover_refs hash mit mnt_path (annotations_of pod)
