-- ===== src/Kube/Calls.antt =====
-- The calls of pkg/k8sclient/client.go and of the host, and the wrappers around them.
use juicedata_juicefs_csi_dr.Prelude.{ℕ, zero, suc, Bool, true, false, List, ◌∷◌, Str, GoMap}
use juicedata_juicefs_csi_dr.Kube.Objects.{Pod, Secret, Job, Pv, Pvc, Patch, MountInfo}
use juicedata_juicefs_csi_dr.Kube.Effects.{
  ◌>>=◌, ok, timeout, Statfs, checked_not_mount_point, statted_fs, made_dirs, changed_mode,
  UmountOutput, got_pod_log, listed_nodes, Query, FileInfo, M, attempt, lift, fail, note,
  is_conflict, got_pod, listed_pods, created_pod, patched_pod, deleted_pod, got_secret,
  created_secret, updated_secret, deleted_secret, got_job, created_job, deleted_job, got_pv,
  got_pvc, statted, checked_path, umounted, bound, cleaned_mount_point, read_mount_table, locked,
  unlocked, slept, listed_pvs, patched_secret, ran, CommandOutput, wrote_file, mounted, unmounted,
  checked_likely_mount_point, resolved_links, read_file, removed_all,
}

-- The calls of pkg/k8sclient/client.go: one request, its answer passed on.
unfoldable pub get_pod : Str → Str → M Pod
get_pod name namespace env t =
    let r = env.get_pod_reply t name namespace in (r, got_pod name namespace r ∷ t)

unfoldable pub list_pod : Query → M (List Pod)
list_pod q env t = let r = env.list_pods_reply t q in (r, listed_pods q r ∷ t)

unfoldable pub get_pod_log : Str → Str → Str → M Str
get_pod_log name namespace container env t =
    let r = env.get_pod_log_reply t name namespace container in
    (r, got_pod_log name namespace container r ∷ t)

-- The names of the nodes with the labels.
unfoldable pub list_node : GoMap Str → M (List Str)
list_node labels env t = let r = env.list_nodes_reply t labels in (r, listed_nodes labels r ∷ t)

unfoldable pub create_pod : Pod → M (Unit {0})
create_pod pod env t = let r = env.create_pod_reply t pod in (r, created_pod pod r ∷ t)

unfoldable pub patch_pod : Pod → Patch → M (Unit {0})
patch_pod pod p env t =
    let r = env.patch_pod_reply t pod.name pod.namespace p in
    (r, patched_pod pod.name pod.namespace p r ∷ t)

unfoldable pub delete_pod : Pod → M (Unit {0})
delete_pod pod env t =
    let r = env.delete_pod_reply t pod.name pod.namespace in
    (r, deleted_pod pod.name pod.namespace r ∷ t)

unfoldable pub get_secret : Str → Str → M Secret
get_secret name namespace env t =
    let r = env.get_secret_reply t name namespace in (r, got_secret name namespace r ∷ t)

unfoldable pub create_secret : Secret → M (Unit {0})
create_secret s env t = let r = env.create_secret_reply t s in (r, created_secret s r ∷ t)

unfoldable pub update_secret : Secret → M (Unit {0})
update_secret s env t = let r = env.update_secret_reply t s in (r, updated_secret s r ∷ t)

unfoldable pub delete_secret : Str → Str → M (Unit {0})
delete_secret name namespace env t =
    let r = env.delete_secret_reply t name namespace in (r, deleted_secret name namespace r ∷ t)

unfoldable pub get_job : Str → Str → M Job
get_job name namespace env t =
    let r = env.get_job_reply t name namespace in (r, got_job name namespace r ∷ t)

unfoldable pub create_job : Job → M Job
create_job job env t = let r = env.create_job_reply t job in (r, created_job job r ∷ t)

unfoldable pub delete_job : Str → Str → M (Unit {0})
delete_job name namespace env t =
    let r = env.delete_job_reply t name namespace in (r, deleted_job name namespace r ∷ t)

unfoldable pub get_persistent_volume : Str → M Pv
get_persistent_volume name env t = let r = env.get_pv_reply t name in (r, got_pv name r ∷ t)

unfoldable pub get_persistent_volume_claim : Str → Str → M Pvc
get_persistent_volume_claim name namespace env t =
    let r = env.get_pvc_reply t name namespace in (r, got_pvc name namespace r ∷ t)

unfoldable pub list_persistent_volumes : M (List Pv)
list_persistent_volumes env t = let r = env.list_pvs_reply t in (r, listed_pvs r ∷ t)

-- PatchSecret with the new finalizers.
unfoldable pub patch_secret : Secret → List Str → M (Unit {0})
patch_secret s finalizers env t =
    let r = env.patch_secret_reply t s.name s.namespace finalizers in
    (r, patched_secret s.name s.namespace finalizers r ∷ t)

-- A command with its arguments, run to its end.
unfoldable pub run : List Str → M CommandOutput
run args env t = let r = env.run_reply t args in (ok r, ran args r ∷ t)

-- ioutil.WriteFile(path, text, 0644)
unfoldable pub write_file : Str → Str → M (Unit {0})
write_file path text env t =
    let r = env.write_file_reply t path text in (r, wrote_file path text r ∷ t)

-- os.Stat, mount.PathExists, `umount -l`, `mount -o bind`, CleanupMountPoint, ParseMountInfo.
unfoldable pub stat : Str → M FileInfo
stat path env t = let r = env.stat_reply t path in (r, statted path r ∷ t)

unfoldable pub path_exists : Str → M Bool
path_exists path env t = let r = env.path_exists_reply t path in (r, checked_path path r ∷ t)

unfoldable pub umount : Str → M UmountOutput
umount path env t = let r = env.umount_reply t path in (ok r, umounted path r ∷ t)

unfoldable pub bind_mount : Str → Str → M (Unit {0})
bind_mount source target env t =
    let r = env.bind_reply t source target in (r, bound source target r ∷ t)

unfoldable pub cleanup_mount_point : Str → M (Unit {0})
cleanup_mount_point path env t =
    let r = env.cleanup_reply t path in (r, cleaned_mount_point path r ∷ t)

unfoldable pub parse_mount_info : M (List MountInfo)
parse_mount_info env t = let r = env.mount_table_reply t in (r, read_mount_table r ∷ t)

-- mount.IsNotMountPoint, syscall.Statfs, os.MkdirAll, os.Chmod.
unfoldable pub is_not_mount_point : Str → M Bool
is_not_mount_point path env t =
    let r = env.is_not_mount_point_reply t path in (r, checked_not_mount_point path r ∷ t)

unfoldable pub statfs : Str → M Statfs
statfs path env t = let r = env.statfs_reply t path in (r, statted_fs path r ∷ t)

unfoldable pub mkdir_all : Str → ℕ → M (Unit {0})
mkdir_all path perm env t =
    let r = env.mkdir_all_reply t path perm in (r, made_dirs path perm r ∷ t)

unfoldable pub chmod : Str → ℕ → M (Unit {0})
chmod path perm env t = let r = env.chmod_reply t path perm in (r, changed_mode path perm r ∷ t)

-- Mount and Unmount of the mounter, IsLikelyNotMountPoint, filepath.EvalSymlinks, ioutil.ReadFile,
-- os.RemoveAll.
unfoldable pub mount_at : Str → Str → List Str → M (Unit {0})
mount_at source target options env t =
    let r = env.mount_reply t source target options in (r, mounted source target options r ∷ t)

unfoldable pub unmount : Str → M (Unit {0})
unmount target env t = let r = env.unmount_reply t target in (r, unmounted target r ∷ t)

unfoldable pub is_likely_not_mount_point : Str → M Bool
is_likely_not_mount_point path env t =
    let r = env.is_likely_not_mount_point_reply t path in (r, checked_likely_mount_point path r ∷ t)

unfoldable pub eval_symlinks : Str → M Str
eval_symlinks path env t = let r = env.eval_symlinks_reply t path in (r, resolved_links path r ∷ t)

unfoldable pub read_whole : Str → M Str
read_whole path env t = let r = env.read_file_reply t path in (r, read_file path r ∷ t)

unfoldable pub remove_all : Str → M (Unit {0})
remove_all path env t = let r = env.remove_all_reply t path in (r, removed_all path r ∷ t)

abbrev pub sleep : M (Unit {0})
sleep = note slept

-- `lock.Lock(); defer lock.Unlock()` around the rest of a function.
unfoldable pub with_lock {ℓ} : {A : Type ℓ} → Str → M A → M A
with_lock name m env t = let r = m env (locked name ∷ t) in (r.0, unlocked name ∷ r.1)

-- retry.RetryOnConflict: `fn` runs again while it returns a conflict, `steps` times at most.
unfoldable pub retry_steps {ℓ} : {A : Type ℓ} → ℕ → M A → M A
retry_steps zero fn = fail timeout
retry_steps (suc zero) fn = fn
retry_steps (suc (suc n)) fn = do
  r ← attempt fn
  elim (is_conflict r) [ true ↦ retry_steps (suc n) fn | false ↦ lift r ]

unfoldable pub retry_on_conflict {ℓ} : {A : Type ℓ} → M A → M A
unfolding retry_steps
retry_on_conflict fn env t = retry_steps env.backoff_steps fn env t
