-- ===== src/Controller/MountTable.antt =====
-- pkg/controller/mountinfo.go: which targets of an app pod are mounted, how often, and how well.
pub mod Counts
use juicedata_juicefs_csi_dr.Prelude.{
  ℕ, zero, suc, ◌+◌, Bool, true, false, not, ◌||◌, Option, none, some, List, [], ◌∷◌, ◌++◌, Str,
  lit, GoMap, lookup, insert, str_eq, has_prefix, index, last_index, split, trim, trim_prefix,
  trim_suffix, take, drop, is_some, if◌then◌else◌, get_or_else,
}
use juicedata_juicefs_csi_dr.Kube.{
  Pod, MountInfo, Err, not_exist, corrupted, Result, ok, err, diverged, M, ◌>>=◌, attempt, pure,
  lift, stat, FileInfo,
}

-- The key of `deleted_pods` is a pod's UID; its value tells whether the pod is being deleted.
pub record MountInfoTable : Type 0 where
  pub mis : List MountInfo
  pub deleted_pods : GoMap Bool

unfoldable pub set_pod_status : MountInfoTable → Pod → MountInfoTable
set_pod_status mit pod = record mit { deleted_pods = insert pod.uid pod.deleting mit.deleted_pods }

unfoldable pub record_pods : List Pod → GoMap Bool → GoMap Bool
record_pods [] deleted = deleted
record_pods (pod ∷ pods) deleted = record_pods pods (insert pod.uid pod.deleting deleted)

unfoldable pub set_pods_status : MountInfoTable → Option (List Pod) → MountInfoTable
unfolding record_pods
set_pods_status mit none = record mit { deleted_pods = [] }
set_pods_status mit (some items) = record mit { deleted_pods = record_pods items [] }

abbrev pub container_sub_path_directory : Str
container_sub_path_directory = lit "volume-subpaths"

abbrev pub container_csi_directory : Str
container_csi_directory = lit "volumes/kubernetes.io~csi"

-- The two sides of the one CSI directory in the target.
unfoldable pub csi_pair : List Str → Option (Str × Str)
csi_pair (before ∷ behind ∷ []) = some (before, behind)
csi_pair _ = none

-- What stands behind the last slash; empty where there is none, or only the first byte is one.
unfoldable pub base_name : Str → Str
base_name dir = elim (last_index dir b'/') [
  | none ↦ []
  | some i ↦ elim i [ zero ↦ [] | suc j ↦ drop (suc (suc j)) dir ]
]

unfoldable pub first_name : Str → Str
first_name path = elim (index path (lit "/")) [
  | none ↦ []
  | some i ↦ elim i [ zero ↦ [] | suc j ↦ take (suc j) path ]
]

unfoldable pub get_pod_uid : Str → Str
unfolding csi_pair base_name
get_pod_uid target = elim (csi_pair (split target container_csi_directory)) [
  | none ↦ []
  | some (before, behind) ↦ base_name (trim_suffix before (lit "/"))
]

unfoldable pub get_pv_name : Str → Str
unfolding csi_pair first_name
get_pv_name target = elim (csi_pair (split target container_csi_directory)) [
  | none ↦ []
  | some (before, behind) ↦ first_name (trim_prefix behind (lit "/"))
]

pub data TargetStatus : Type 0 where
  target_not_exist target_mounted target_not_mount target_corrupt target_unexpect : TargetStatus

pub record TargetItem : Type 0 where
  pub target : Str
  pub subpath : Str
  pub count : ℕ
  pub inconsistent : Bool
  pub status : TargetStatus

-- A status by the answer of `os.Stat`. The status that the code sets first for an error on a
-- target that is not mounted is overwritten by the lines that follow.
unfoldable pub status_of : Bool → Result FileInfo → TargetStatus
status_of mounted (ok info) = if mounted then target_mounted else target_not_mount
status_of mounted (err not_exist) = target_not_exist
status_of mounted (err corrupted) = target_corrupt
status_of mounted _ = target_unexpect

unfoldable pub check : Bool → TargetItem → M TargetItem
check mounted ti = do
  r ← attempt (stat ti.target)
  pure (record ti { status = status_of mounted r })

unfoldable pub matches : Str → Bool → MountInfo → Bool
matches path is_prefix mi =
    if is_prefix then has_prefix mi.mount_point path else str_eq path mi.mount_point

unfoldable pub subpath_of : MountInfo → Str
subpath_of mi = trim b'/' (trim_suffix mi.root (lit "//deleted"))

-- `records[mi.MountPoint]` after one more entry of the table.
unfoldable pub count_entry : MountInfo → Option TargetItem → TargetItem
unfolding subpath_of
count_entry mi none = record {
  target = mi.mount_point;
  subpath = subpath_of mi;
  count = 1;
  inconsistent = false;
  status = target_not_exist;
}
count_entry mi (some item) = record item {
  inconsistent = item.inconsistent || not (str_eq item.subpath (subpath_of mi));
  count = item.count + 1;
}

unfoldable pub collect : Str → Bool → List MountInfo → GoMap TargetItem → GoMap TargetItem
collect path is_prefix [] records = records
collect path is_prefix (mi ∷ mis) records = collect path is_prefix mis (
    if matches path is_prefix mi
    then insert mi.mount_point (count_entry mi (lookup mi.mount_point records)) records
    else records)

unfoldable pub check_records : GoMap TargetItem → M (List TargetItem)
check_records [] = pure []
check_records ((k, item) ∷ records) = do
  checked ← check true item
  rest ← check_records records
  pure (checked ∷ rest)

unfoldable pub resolve_target_item : MountInfoTable → Str → Bool → M (List TargetItem)
resolve_target_item mit path is_prefix = check_records (collect path is_prefix mit.mis [])

pub record MountItem : Type 0 where
  pub pod_exist : Bool
  pub pod_deleted : Bool
  pub base_target : TargetItem
  pub sub_path_target : List TargetItem

abbrev unmounted_item : Str → TargetItem
unmounted_item target = record {
  target = target;
  subpath = [];
  count = 0;
  inconsistent = false;
  status = target_not_exist;
}

unfoldable pub base_item : Str → List TargetItem → M TargetItem
base_item target (item ∷ []) = pure item
base_item target _ = check false (unmounted_item target)

unfoldable pub sub_path_prefix : Str → Str → Str
sub_path_prefix pod_dir pv_name =
    pod_dir ++ (lit "/" ++ (container_sub_path_directory ++ (lit "/" ++ pv_name)))

unfoldable pub resolve_valid : MountInfoTable → Str → Str → Str → Str → M (Option MountItem)
resolve_valid mit target pod_dir pod_uid pv_name = do
  items ← resolve_target_item mit target false
  base ← base_item target items
  sub_paths ← resolve_target_item mit (sub_path_prefix pod_dir pv_name) true
  pure (
      some (record {
        pod_exist = is_some (lookup pod_uid mit.deleted_pods);
        pod_deleted = get_or_else false (lookup pod_uid mit.deleted_pods);
        base_target = base;
        sub_path_target = sub_paths;
      }))

-- `none` where the target is no target of the CSI driver.
unfoldable pub resolve_target : MountInfoTable → Str → M (Option MountItem)
resolve_target mit target = elim (csi_pair (split target container_csi_directory)) [
  | none ↦ pure none
  | some (before, behind) ↦
      if str_eq (get_pod_uid target) [] || str_eq (get_pv_name target) []
      then pure none
      else resolve_valid mit target (trim_suffix before (lit "/")) (get_pod_uid target)
          (get_pv_name target)
]
