-- ===== src/Kube/Objects.antt =====
-- The Kubernetes objects that the driver reads and writes, with the fields that it uses. Their Go
-- types are the ones of k8s.io/api; the keys and names are those of pkg/config/config.go.
use juicedata_juicefs_csi_dr.Prelude.{
  ℕ, Bool, Option, List, Str, lit, GoMap, get_or_else, [], lookup,
}

pub record Container : Type 0 where
  pub name : Str
  pub image : Str
  pub command : List Str
  pub requests : GoMap Str
  pub limits : GoMap Str

-- A corev1.PodCondition or a batchv1.JobCondition.
pub record Condition : Type 0 where
  pub kind : Str
  pub status : Str
  pub reason : Str
  pub message : Str

-- `waiting` is the reason of State.Waiting; `terminated` is the exit code and the reason of
-- State.Terminated.
pub record ContainerStatus : Type 0 where
  pub name : Str
  pub ready : Bool
  pub waiting : Option Str
  pub terminated : Option (ℕ × Str)

-- A volume, with the path of its host directory.
pub record Volume : Type 0 where
  pub name : Str
  pub host_path : Option Str

pub record Pod : Type 0 where
  pub name : Str
  pub namespace : Str
  pub uid : Str
  pub labels : GoMap Str
  -- `none` is the nil map
  pub annotations : Option (GoMap Str)
  pub finalizers : List Str
  -- DeletionTimestamp != nil
  pub deleting : Bool
  pub node_name : Str
  pub node_selector : GoMap Str
  pub containers : List Container
  pub volumes : List Volume
  pub grace_period : Option ℕ
  -- Affinity, SchedulerName and Tolerations, which are only copied
  pub scheduling : Str
  pub phase : Str
  pub reason : Str
  pub message : Str
  pub conditions : List Condition
  pub init_container_statuses : List ContainerStatus
  pub container_statuses : List ContainerStatus

-- pod.Annotations, read as a map.
unfoldable pub annotations_of : Pod → GoMap Str
annotations_of pod = get_or_else [] pod.annotations

pub record Secret : Type 0 where
  pub name : Str
  pub namespace : Str
  pub string_data : GoMap Str
  pub secret_data : GoMap Str
  pub finalizers : List Str

pub record Job : Type 0 where
  pub name : Str
  pub namespace : Str
  pub deleting : Bool
  pub node_name : Str
  pub ttl_seconds : Option ℕ
  pub completion_time : Option ℕ
  pub conditions : List Condition

-- The part of a PersistentVolumeSpec under `csi`.
pub record CsiSource : Type 0 where
  pub driver : Str
  pub volume_handle : Str
  pub attributes : GoMap Str
  pub publish_secret : Option (Str × Str)

-- `claim_ref` is the name and the namespace of the claim.
pub record Pv : Type 0 where
  pub name : Str
  pub deleting : Bool
  pub storage_class : Str
  pub reclaim_policy : Str
  pub mount_options : List Str
  pub claim_ref : Option (Str × Str)
  pub csi : Option CsiSource

pub record Pvc : Type 0 where
  pub name : Str
  pub namespace : Str
  pub labels : GoMap Str
  pub annotations : GoMap Str

pub record Node : Type 0 where
  pub name : Str
  pub pod_cidr : Str
  pub labels : GoMap Str
  pub annotations : GoMap Str

-- m[k] of a map of texts: "" where there is no entry.
unfoldable pub value_at : GoMap Str → Str → Str
value_at m k = get_or_else [] (lookup k m)

-- The request bodies of PatchPod.
pub data Patch : Type 0 where
  replace_finalizers : List Str → Patch
  add_labels : GoMap Str → Patch
  add_annotations : GoMap Str → Patch
  remove_annotations : List Str → Patch
  replace_annotations : GoMap Str → Patch

-- An entry of /proc/self/mountinfo.
pub record MountInfo : Type 0 where
  pub mount_point : Str
  pub root : Str
  pub minor : ℕ

-- Keys, names and values of pkg/config/config.go and of the API.
abbrev pub finalizer : Str
finalizer = lit "juicefs.com/finalizer"

abbrev pub delete_delay_time_key : Str
delete_delay_time_key = lit "juicefs-delete-delay"

abbrev pub delete_delay_at_key : Str
delete_delay_at_key = lit "juicefs-delete-at"

abbrev pub juicefs_uuid : Str
juicefs_uuid = lit "juicefs-uuid"

abbrev pub unique_id_key : Str
unique_id_key = lit "juicefs-uniqueid"

abbrev pub clean_cache_key : Str
clean_cache_key = lit "juicefs-clean-cache"

abbrev pub pod_mount_base : Str
pod_mount_base = lit "/jfs"

abbrev pub hostname_label : Str
hostname_label = lit "kubernetes.io/hostname"

abbrev pub condition_true : Str
condition_true = lit "True"

abbrev pub condition_false : Str
condition_false = lit "False"
