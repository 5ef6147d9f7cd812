-- ===== src/Kube/Effects.antt =====
-- What the driver does to the world around it. A handler runs against an environment, which holds
-- all that this repository does not implement: the API server, the kernel's mounts, the clock, the
-- hash. The environment answers from the whole history of calls, so it may change between two
-- calls as other processes please. Every call is noted in the history with its answer.
use juicedata_juicefs_csi_dr.Prelude.{
  ℕ, Bool, true, false, ◌≡◌, refl, sym, ◌⊎◌, inl, inr, Option, List, ◌∷◌, Str, GoMap, String,
  if◌then◌else◌,
}
use juicedata_juicefs_csi_dr.Kube.Objects.{Pod, Secret, Job, Pv, Pvc, Patch, MountInfo}

-- Codes of google.golang.org/grpc/codes.
pub data Code : Type 0 where
  invalid_argument already_exists aborted internal unimplemented absent : Code

-- Go's `error`, as far as the program tells errors apart.
pub data Err : Type 0 where
  not_found conflict timeout canceled deadline_exceeded not_exist corrupted : Err
  other : String → Err
  -- a gRPC status with its message
  status : Code → String → Err

-- `diverged`: a call that does not return, or a loop that has used the fuel of the model.
pub data Result {ℓ} (A : Type ℓ) : Type ℓ where
  ok : A → Result A
  err : Err → Result A
  diverged : Result A

-- The selectors of ListPod, as label pairs, field pairs and labels that exist.
pub record Query : Type 0 where
  pub namespace : Str
  pub labels : GoMap Str
  pub fields : GoMap Str
  -- labels that are there, with any value
  pub keys : List Str

-- What `os.Stat` tells of a path.
pub record FileInfo : Type 0 where
  pub inode : ℕ
  pub perm : ℕ
  pub dev : ℕ

-- What `umount -l` tells: did it fail, and its output.
pub record UmountOutput : Type 0 where
  pub failed : Bool
  pub output : Str

-- What a command tells: did it fail, was its time over, and its output.
pub record CommandOutput : Type 0 where
  pub failed : Bool
  pub timed_out : Bool
  pub output : Str

-- What statfs(2) tells of a file system.
pub record Statfs : Type 0 where
  pub bsize : ℕ
  pub blocks : ℕ
  pub bfree : ℕ
  pub files : ℕ
  pub ffree : ℕ

pub data Event : Type 0 where
  got_pod : Str → Str → Result Pod → Event
  listed_pods : Query → Result (List Pod) → Event
  got_pod_log : Str → Str → Str → Result Str → Event
  listed_nodes : GoMap Str → Result (List Str) → Event
  created_pod : Pod → Result (Unit {0}) → Event
  patched_pod : Str → Str → Patch → Result (Unit {0}) → Event
  deleted_pod : Str → Str → Result (Unit {0}) → Event
  got_secret : Str → Str → Result Secret → Event
  created_secret : Secret → Result (Unit {0}) → Event
  updated_secret : Secret → Result (Unit {0}) → Event
  deleted_secret : Str → Str → Result (Unit {0}) → Event
  got_job : Str → Str → Result Job → Event
  created_job : Job → Result Job → Event
  deleted_job : Str → Str → Result (Unit {0}) → Event
  got_pv : Str → Result Pv → Event
  got_pvc : Str → Str → Result Pvc → Event
  listed_pvs : Result (List Pv) → Event
  patched_secret : Str → Str → List Str → Result (Unit {0}) → Event
  ran : List Str → CommandOutput → Event
  wrote_file : Str → Str → Result (Unit {0}) → Event
  statted : Str → Result FileInfo → Event
  checked_path : Str → Result Bool → Event
  umounted : Str → UmountOutput → Event
  bound : Str → Str → Result (Unit {0}) → Event
  cleaned_mount_point : Str → Result (Unit {0}) → Event
  read_mount_table : Result (List MountInfo) → Event
  checked_not_mount_point : Str → Result Bool → Event
  statted_fs : Str → Result Statfs → Event
  made_dirs : Str → ℕ → Result (Unit {0}) → Event
  changed_mode : Str → ℕ → Result (Unit {0}) → Event
  mounted : Str → Str → List Str → Result (Unit {0}) → Event
  unmounted : Str → Result (Unit {0}) → Event
  checked_likely_mount_point : Str → Result Bool → Event
  resolved_links : Str → Result Str → Event
  read_file : Str → Result Str → Event
  removed_all : Str → Result (Unit {0}) → Event
  removed : Str → Event
  -- a counter of the metrics went up
  incremented : String → Event
  stored_minor : Str → ℕ → Event
  locked : Str → Event
  unlocked : Str → Event
  slept : Event
  -- a goroutine was started, by its name in the source
  started : String → Str → Event

-- The newest event first.
abbrev pub Trace : Type 0
Trace = List Event

pub record Env : Type 0 where
  -- the API server
  pub get_pod_reply : Trace → Str → Str → Result Pod
  pub list_pods_reply : Trace → Query → Result (List Pod)
  pub get_pod_log_reply : Trace → Str → Str → Str → Result Str
  pub list_nodes_reply : Trace → GoMap Str → Result (List Str)
  pub create_pod_reply : Trace → Pod → Result (Unit {0})
  pub patch_pod_reply : Trace → Str → Str → Patch → Result (Unit {0})
  pub delete_pod_reply : Trace → Str → Str → Result (Unit {0})
  pub get_secret_reply : Trace → Str → Str → Result Secret
  pub create_secret_reply : Trace → Secret → Result (Unit {0})
  pub update_secret_reply : Trace → Secret → Result (Unit {0})
  pub delete_secret_reply : Trace → Str → Str → Result (Unit {0})
  pub get_job_reply : Trace → Str → Str → Result Job
  pub create_job_reply : Trace → Job → Result Job
  pub delete_job_reply : Trace → Str → Str → Result (Unit {0})
  pub get_pv_reply : Trace → Str → Result Pv
  pub get_pvc_reply : Trace → Str → Str → Result Pvc
  pub list_pvs_reply : Trace → Result (List Pv)
  pub patch_secret_reply : Trace → Str → Str → List Str → Result (Unit {0})
  -- the host: files, mounts, commands, the variables of the process
  pub run_reply : Trace → List Str → CommandOutput
  pub lookup_env : Str → Option Str
  pub write_file_reply : Trace → Str → Str → Result (Unit {0})
  pub stat_reply : Trace → Str → Result FileInfo
  pub path_exists_reply : Trace → Str → Result Bool
  pub umount_reply : Trace → Str → UmountOutput
  pub bind_reply : Trace → Str → Str → Result (Unit {0})
  pub cleanup_reply : Trace → Str → Result (Unit {0})
  pub mount_table_reply : Trace → Result (List MountInfo)
  pub is_not_mount_point_reply : Trace → Str → Result Bool
  pub statfs_reply : Trace → Str → Result Statfs
  pub mkdir_all_reply : Trace → Str → ℕ → Result (Unit {0})
  pub chmod_reply : Trace → Str → ℕ → Result (Unit {0})
  pub mount_reply : Trace → Str → Str → List Str → Result (Unit {0})
  pub unmount_reply : Trace → Str → Result (Unit {0})
  pub is_likely_not_mount_point_reply : Trace → Str → Result Bool
  pub eval_symlinks_reply : Trace → Str → Result Str
  pub read_file_reply : Trace → Str → Result Str
  pub remove_all_reply : Trace → Str → Result (Unit {0})
  -- time in seconds; ParseDuration, with the sign of its answer (`true` for minus), Format and
  -- Parse of package time
  pub now : Trace → ℕ
  pub parse_duration : Str → Option (Bool × ℕ)
  pub format_time : ℕ → Str
  pub parse_time : Str → Option ℕ
  -- is the context of the call done?
  pub context_error : Trace → Option Err
  -- resource.ParseQuantity: the quantity's text, and whether it is above zero
  pub parse_quantity : Str → Option (Str × Bool)
  -- its value as an unsigned number of 64 bits
  pub quantity_value : Str → Option ℕ
  -- hex(sha256(s)), and the random suffix of a pod's name
  pub sha256_hex : Str → Str
  pub random_suffix : Trace → Str
  -- retry.DefaultBackoff.Steps of client-go
  pub backoff_steps : ℕ
  -- config.GlobalConfig.EnableNodeSelector, config.NodeName, config.Namespace
  pub enable_node_selector : Bool
  pub driver_name : Str
  -- STORAGE_CLASS_SHARE_MOUNT, config.ByProcess, config.Provisioner
  pub share_mount : Bool
  pub by_process : Bool
  pub provisioner : Bool
  pub node : Str
  pub mount_namespace : Str

abbrev pub M {ℓ} : Type ℓ → Type ℓ
M A = Env → Trace → Result A × Trace

abbrev pub continue {ℓ κ} :
    {A : Type ℓ} {B : Type κ} → Result A × Trace → (A → M B) → Env → Result B × Trace
continue (ok a, t) f env = f a env t
continue (err e, t) f env = (err e, t)
continue (diverged, t) f env = (diverged, t)

-- `if err != nil { return err }` after a call.
infixl 5 ◌>>=◌ ◌>>◌
abbrev pub ◌>>=◌ {ℓ κ} : {A : Type ℓ} {B : Type κ} → M A → (A → M B) → M B
◌>>=◌ m f env t = continue (m env t) f env

abbrev pub ◌>>◌ {ℓ κ} : {A : Type ℓ} {B : Type κ} → M A → M B → M B
m >> n = m >>= λ _. n

abbrev pub pure {ℓ} : {A : Type ℓ} → A → M A
pure a env t = (ok a, t)

abbrev pub fail {ℓ} : {A : Type ℓ} → Err → M A
fail e env t = (err e, t)

abbrev pub diverge {ℓ} : {A : Type ℓ} → M A
diverge env t = (diverged, t)

abbrev pub settle {ℓ} : {A : Type ℓ} → Result A × Trace → Result (Result A) × Trace
settle (ok a, t) = (ok (ok a), t)
settle (err e, t) = (ok (err e), t)
settle (diverged, t) = (diverged, t)

-- `a, err := m`, where the code goes on and looks at `err` itself.
abbrev pub attempt {ℓ} : {A : Type ℓ} → M A → M (Result A)
attempt m env t = settle (m env t)

-- A value of the environment.
abbrev pub ask {ℓ} : {A : Type ℓ} → (Env → Trace → A) → M A
ask f env t = (ok (f env t), t)

abbrev pub note : Event → M (Unit {0})
note e env t = (ok tt, e ∷ t)

abbrev pub lift {ℓ} : {A : Type ℓ} → Result A → M A
lift r env t = (r, t)

abbrev pub when : Bool → M (Unit {0}) → M (Unit {0})
when b m env t = if b then m env t else (ok tt, t)

abbrev pub is_not_found : Err → Bool
is_not_found not_found = true
is_not_found _ = false

abbrev pub is_timeout : Err → Bool
is_timeout timeout = true
is_timeout _ = false

abbrev pub is_conflict {ℓ} : {A : Type ℓ} → Result A → Bool
is_conflict (err conflict) = true
is_conflict _ = false

abbrev pub is_ok {ℓ} : {A : Type ℓ} → Result A → Bool
is_ok (ok a) = true
is_ok _ = false

pub Result-cases {ℓ} :
    {A : Type ℓ} (r : Result A)
    → ((a : A) × (r ≡ ok a)) ⊎ ((e : Err) × (r ≡ err e)) ⊎ (r ≡ diverged)
Result-cases (ok a) = inl (a, refl)
Result-cases (err e) = inr (inl (e, refl))
Result-cases diverged = inr (inr refl)

-- An answer that is looked at is the same as the answer.
pub attempt-known {ℓ κ} :
    {A : Type ℓ} {B : Type κ} (r : Result A) (t : Trace) (f : Result A → M B) (env : Env)
    → f diverged env t ≡ (diverged, t)
    → continue (settle (r, t)) f env ≡ f r env t
attempt-known (ok a) t f env h = refl
attempt-known (err e) t f env h = refl
attempt-known diverged t f env h = sym h

pub not-err-ok {ℓ} : {A : Type ℓ} {e : Err} {a : A} → err e ≡ ok a → ⊥
not-err-ok h = cc

pub not-diverged-ok {ℓ} : {A : Type ℓ} {a : A} → diverged ≡ ok a → ⊥
not-diverged-ok h = cc

-- A bind that succeeds has a first part that does, and so has its second part, from there.
pub bind-ok {ℓ κ} :
    {A : Type ℓ} {B : Type κ} (r : Result A × Trace) (f : A → M B) (env : Env) (b : B)
    → (continue r f env).0 ≡ ok b
    → (a : A) × (r.0 ≡ ok a) × (continue r f env ≡ f a env r.1)
bind-ok (ok a, t) f env b h = (a, refl, refl)
bind-ok (err e, t) f env b h = absurd (not-err-ok h)
bind-ok (diverged, t) f env b h = absurd (not-diverged-ok h)
