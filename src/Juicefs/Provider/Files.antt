-- ===== src/Juicefs/Provider/Files.antt =====
-- CreateVol, BindTarget, CreateTarget and validTarget of pkg/juicefs/juicefs.go.
use juicedata_juicefs_csi_dr.Prelude.{
  ℕ, zero, suc, Bool, not, ◌||◌, Option, none, some, List, [], ◌∷◌, Str, lit, str_eq, contains,
  split, path_join, ◌==◌, if◌then◌else◌,
}
use juicedata_juicefs_csi_dr.Kube.{
  MountInfo, corrupted, Result, ok, err, diverged, other, M, ◌>>=◌, ◌>>◌, pure, fail, lift, when,
  attempt, note, removed, stat, path_exists, mkdir_all, chmod, bind_mount, parse_mount_info,
}
use juicedata_juicefs_csi_dr.Util.Mounts.{umount_path}

abbrev mode_0777 : ℕ
mode_0777 = 0o777

abbrev mode_0755 : ℕ
mode_0755 = 0o755

-- The directory of a volume is made with the mode 0777, whatever the umask.
unfoldable pub make_volume : Str → M (Unit {0})
make_volume vol_path = do
  mkdir_all vol_path mode_0777
  fi ← stat vol_path
  when (not (fi.perm == mode_0777)) (chmod vol_path mode_0777)

unfoldable pub create_vol : Str → Str → M Str
create_vol mount_path sub_path = do
  let vol_path = path_join (mount_path ∷ sub_path ∷ [])
  exists ← path_exists vol_path
  when (not exists) (make_volume vol_path)
  pure vol_path

-- The device of the last entry of the mount point.
unfoldable pub minor_of : Str → Option ℕ → List MountInfo → Option ℕ
minor_of path found [] = found
minor_of path found (mi ∷ mis) =
    minor_of path (if str_eq mi.mount_point path then some mi.minor else found) mis

-- The device that `targetMinor` points to. It is `&mi.Minor`, the address of the loop's variable,
-- so that it reads the last entry of the table, whichever entry was met.
unfoldable pub last_minor : ℕ → List MountInfo → ℕ
last_minor d [] = d
last_minor d (mi ∷ mis) = last_minor mi.minor mis

unfoldable pub target_minor : Str → List MountInfo → Option ℕ
target_minor target mis = elim (minor_of target none mis) [
  | none ↦ none
  | some met ↦ some (last_minor met mis)
]

unfoldable pub bind_or_remove : Str → Str → M (Unit {0})
bind_or_remove bind_source target = do
  r ← attempt (bind_mount bind_source target)
  elim r [ ok u ↦ pure tt | err e ↦ do note (removed target); fail e | diverged ↦ lift diverged ]

unfoldable pub bind_over : Str → Str → ℕ → Option ℕ → M (Unit {0})
bind_over bind_source target minor none = bind_or_remove bind_source target
bind_over bind_source target minor (some old) =
    if old == minor then pure tt else do umount_path target; bind_or_remove bind_source target

unfoldable pub bind_target : Str → Str → Str → M (Unit {0})
bind_target mount_path bind_source target = do
  mis ← parse_mount_info
  elim (minor_of mount_path none mis) [
    | none ↦ fail (other "mountPath not mounted")
    | some minor ↦ bind_over bind_source target minor (target_minor target mis)
  ]

-- CreateTarget, for `fuel` rounds: a corrupted mount is unmounted first.
unfoldable pub create_target : ℕ → Str → M (Unit {0})
create_target zero target = lift diverged
create_target (suc fuel) target = do
  r ← attempt (path_exists target)
  elim r [
    | ok exists ↦ mkdir_all target mode_0755
    | err e ↦ elim e as (λ e'. M (Unit {0})) [
      | corrupted ↦ do umount_path target; create_target fuel target
      | e' ↦ fail e'
    ]
    | diverged ↦ lift diverged
  ]

abbrev pub head_or {ℓ} : {A : Type ℓ} → A → List A → A
head_or d [] = d
head_or d (x ∷ xs) = x

-- validTarget; `kubelet_dir` is the host path of the volume "kubelet-dir" of the driver's own pod.
unfoldable pub valid_target : Bool → Str → Str → Result (Unit {0})
valid_target by_process kubelet_dir target =
    if contains target (lit "../") || (contains target (lit "/..") || contains target (lit ".."))
    then err (other "illegal access")
    else if contains target (lit "./") || contains target (lit "/.")
    then err (other "illegal access")
    else if by_process
    then ok tt
    else if not (str_eq kubelet_dir (head_or [] (split target (lit "/pods/"))))
    then err (other "kubelet rootdir")
    else ok tt
