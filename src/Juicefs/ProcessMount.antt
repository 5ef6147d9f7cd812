-- ===== src/Juicefs/ProcessMount.antt =====
-- ProcessMount of pkg/juicefs/mount/process_mount.go: mounts that are made by processes of the
-- driver itself, and counted by the table of mounts.
pub mod Shared
use juicedata_juicefs_csi_dr.Prelude.{
  ℕ, zero, suc, ◌-◌, Bool, true, false, not, ◌||◌, ◌&&◌, Option, none, some, List, [], ◌∷◌, ◌++◌,
  Str, lit, str_eq, split, contains, contains_string, trim_suffix, path_dir, path_base, is_empty,
  length, path_join, ◌==◌, if◌then◌else◌,
}
use juicedata_juicefs_csi_dr.Kube.{
  Err, corrupted, deadline_exceeded, canceled, Result, ok, err, diverged, other, CommandOutput,
  FileInfo, M, ◌>>=◌, ◌>>◌, pure, fail, lift, when, attempt, note, started, sleep, stat,
  path_exists, mkdir_all, chmod, run, mount_at, unmount, is_likely_not_mount_point,
  is_not_mount_point, eval_symlinks, read_whole, remove_all,
}
use juicedata_juicefs_csi_dr.Util.Names.{strip_readonly_option}
use juicedata_juicefs_csi_dr.Util.MountTable.{parse_mounts, search_mount_points}
use juicedata_juicefs_csi_dr.Juicefs.Settings.{JfsSetting, AppInfo}
use juicedata_juicefs_csi_dr.Juicefs.Provider.Commands.{cli_path, ce_cli_path}
use juicedata_juicefs_csi_dr.Juicefs.Provider.Files.{make_volume}

-- ConsistentRead: the same content twice, after `attempts` more reads at most.
unfoldable pub read_again : ℕ → Str → Str → M Str
read_again zero filename old = fail (other "could not get consistent content")
read_again (suc attempts) filename old = do
  new ← read_whole filename
  if str_eq old new then pure new else read_again attempts filename new

unfoldable pub consistent_read : Str → ℕ → M Str
consistent_read filename attempts = do old ← read_whole filename; read_again attempts filename old

-- Of a corrupted mount, only the directory that it stands in is looked at.
unfoldable pub real_path : Str → Bool → M Str
real_path pathname is_corrupted = if not is_corrupted then eval_symlinks pathname else do
  let trimmed = trim_suffix pathname (lit "/")
  parent ← eval_symlinks (path_dir trimmed)
  pure (path_join (parent ∷ path_base trimmed ∷ []))

unfoldable pub get_mount_device_refs : Str → Bool → M (List Str)
get_mount_device_refs pathname is_corrupted = do
  path ← real_path pathname is_corrupted
  content ← consistent_read (lit "/proc/self/mountinfo") 3
  mounts ← lift (parse_mounts content)
  lift (search_mount_points path mounts)

abbrev attached_at : Str → Bool → M (Option Bool)
attached_at target exists =
    if not exists
    then pure none
    else do not_mounted ← is_not_mount_point target; pure (if not_mounted then none else some false)

-- Is something mounted at the target, and is it corrupted?
unfoldable pub attached : Str → M (Option Bool)
attached target = do
  r ← attempt (path_exists target)
  elim r [
    | ok exists ↦ attached_at target exists
    | err e ↦ elim e as (λ e'. M (Option Bool)) [
      | corrupted ↦ pure (some true)
      | e' ↦ fail (other "check path failed")
    ]
    | diverged ↦ lift diverged
  ]

unfoldable pub get_mount_ref : Str → M ℕ
get_mount_ref target = do
  found ← attached target
  elim found [
    | none ↦ pure 0
    | some is_corrupted ↦ get_mount_device_refs target is_corrupted >>= λ refs. pure (length refs)
  ]

-- The mount itself goes with its last target.
unfoldable pub unmount_last : List Str → M (Unit {0})
unmount_last [] = pure tt
unmount_last (ref ∷ []) = unmount ref
unmount_last (ref ∷ ref' ∷ refs) = pure tt

unfoldable pub j_umount : Str → M (Unit {0})
j_umount target = do
  found ← attached target
  elim found [
    | none ↦ pure tt
    | some is_corrupted ↦ do
      refs ← get_mount_device_refs target is_corrupted
      unmount target
      unmount_last refs
  ]

abbrev is_root : FileInfo → Bool
is_root fi = fi.inode == 1

abbrev ends_wait : Err → Bool
ends_wait deadline_exceeded = true
ends_wait canceled = true
ends_wait _ = false

-- The wait for the mount ends well where the root inode shows; at the end of its time the loop is
-- left only by a `stat` that fails for it: the `break` leaves the loop. `fuel` rounds are modelled.
unfoldable pub wait_mounted : ℕ → Str → M (Unit {0})
wait_mounted zero mount_path = lift diverged
wait_mounted (suc fuel) mount_path = do
  r ← attempt (stat mount_path)
  elim r [
    | ok fi ↦ if is_root fi then pure tt else do sleep; wait_mounted fuel mount_path
    | err e ↦
        if ends_wait e
        then fail (other "mount isn't ready in 30 seconds")
        else do sleep; wait_mounted fuel mount_path
    | diverged ↦ lift diverged
  ]

-- The mount of a community file system, once the path is free.
unfoldable pub prepare_path : Str → M (Unit {0})
prepare_path mount_path = do
  exists ← path_exists mount_path
  when (not exists) (mkdir_all mount_path 0o755)
  not_mounted ← is_likely_not_mount_point mount_path
  when (not not_mounted) (unmount mount_path)

-- `storage` is not used.
unfoldable pub jmount : ℕ → Str → Str → List Str → M (Unit {0})
unfolding contains
jmount fuel source mount_path options =
    if not (contains source (lit "://")) then mount_at source mount_path options else do
      prepare_path mount_path
      note (started "mount.juicefs" mount_path)
      wait_mounted fuel mount_path

unfoldable pub j_create_volume : ℕ → JfsSetting → M (Unit {0})
unfolding strip_readonly_option path_join
j_create_volume fuel setting = do
  jmount fuel setting.source setting.mount_path (strip_readonly_option setting.options)
  let vol_path = path_join (setting.mount_path ∷ setting.sub_path ∷ [])
  exists ← path_exists vol_path
  when (not exists) (make_volume vol_path)
  unmount setting.mount_path

unfoldable pub rmr_dir : Str → Bool → M CommandOutput
rmr_dir directory is_ce =
    run ((if is_ce then ce_cli_path else cli_path) ∷ lit "rmr" ∷ directory ∷ [])

unfoldable pub remove_volume : Str → Bool → M (Unit {0})
remove_volume vol_path is_ce = do
  out ← rmr_dir vol_path is_ce
  when out.failed (fail (other "could not delete volume path"))

unfoldable pub j_delete_volume : ℕ → JfsSetting → M (Unit {0})
unfolding path_join
j_delete_volume fuel setting = do
  jmount fuel setting.source setting.mount_path setting.options
  let vol_path = path_join (setting.mount_path ∷ setting.sub_path ∷ [])
  exists ← path_exists vol_path
  when exists (remove_volume vol_path setting.is_ce)
  unmount setting.mount_path

-- The app pod is not looked at.
unfoldable pub j_mount : ℕ → Option AppInfo → JfsSetting → M JfsSetting
unfolding contains_string
j_mount fuel app setting = do
  when
      (not (is_empty setting.sub_path)
        && (contains_string setting.options (lit "read-only")
            || contains_string setting.options (lit "ro")))
      (j_create_volume fuel setting)
  jmount fuel setting.source setting.mount_path setting.options
  pure setting

unfoldable pub clean_cache : Str → List Str → M (Unit {0})
unfolding path_join
clean_cache id [] = pure tt
clean_cache id (cache_dir ∷ cache_dirs) = do
  let raw_path = path_join (cache_dir ∷ id ∷ lit "raw" ∷ lit "chunks" ∷ [])
  exists ← path_exists raw_path
  when exists (remove_all raw_path)
  clean_cache id cache_dirs
