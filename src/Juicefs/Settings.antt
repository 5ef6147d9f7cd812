-- ===== src/Juicefs/Settings.antt =====
-- The settings of a volume (JfsSetting of pkg/config/setting.go), and what pkg/juicefs/mount/builder makes of them.
use juicedata_juicefs_csi_dr.Prelude.{Bool, false, Option, none, List, [], Str, GoMap, take}
use juicedata_juicefs_csi_dr.Kube.{Pod, Secret, Job, Pv, Pvc, Result, ok, err, diverged}
use juicedata_juicefs_csi_dr.Config.Resources.{Requirements}

pub record CachePvc : Type 0 where
  pub pvc_name : Str
  pub path : Str

pub record CacheEmptyDir : Type 0 where
  pub medium : Str
  pub size_limit : Str
  pub path : Str

-- `csi` is the source as text; it is only passed on.
pub record CacheInlineVolume : Type 0 where
  pub csi : Str
  pub path : Str

-- What of a mount pod is set by the configuration. Probes and the lifecycle are texts that are
-- only passed on; so is `inherited`, the host aliases, DNS, pull secrets and tolerations of the
-- driver's pod.
pub record PodAttr : Type 0 where
  pub namespace : Str
  pub mount_point_path : Str
  pub jfs_config_path : Str
  pub priority_name : Str
  pub service_account : Str
  pub resources : Requirements
  pub labels : GoMap Str
  pub annotations : GoMap Str
  pub liveness_probe : Option Str
  pub readiness_probe : Option Str
  pub startup_probe : Option Str
  pub lifecycle : Option Str
  pub image : Str
  pub host_network : Bool
  pub host_pid : Bool
  pub preemption_policy : Option Str
  pub inherited : Str

pub record JfsSetting : Type 0 where
  pub is_ce : Bool
  pub use_pod : Bool
  pub uuid : Str
  pub name : Str
  pub meta_url : Str
  pub source : Str
  pub storage : Str
  pub format_options : Str
  pub cache_pvcs : List CachePvc
  pub cache_empty_dir : Option CacheEmptyDir
  pub cache_inline_volumes : List CacheInlineVolume
  pub cache_dirs : List Str
  pub client_conf_path : Str
  pub secret_key : Str
  pub secret_key2 : Str
  pub token : Str
  pub passphrase : Str
  pub envs : GoMap Str
  pub encrypt_rsa_key : Str
  pub init_config : Str
  pub configs : GoMap Str
  pub deleted_delay : Str
  pub clean_cache : Bool
  pub host_path : List Str
  pub volume_id : Str
  pub unique_id : Str
  pub mount_path : Str
  pub target_path : Str
  pub options : List Str
  pub format_cmd : Str
  pub sub_path : Str
  pub secret_name : Str
  pub attr : Option PodAttr
  pub pv : Option Pv
  pub pvc : Option Pvc

-- `JfsSetting{}`
abbrev pub empty_setting : JfsSetting
empty_setting = record {
  is_ce = false;
  use_pod = false;
  uuid = [];
  name = [];
  meta_url = [];
  source = [];
  storage = [];
  format_options = [];
  cache_pvcs = [];
  cache_empty_dir = none;
  cache_inline_volumes = [];
  cache_dirs = [];
  client_conf_path = [];
  secret_key = [];
  secret_key2 = [];
  token = [];
  passphrase = [];
  envs = [];
  encrypt_rsa_key = [];
  init_config = [];
  configs = [];
  deleted_delay = [];
  clean_cache = false;
  host_path = [];
  volume_id = [];
  unique_id = [];
  mount_path = [];
  target_path = [];
  options = [];
  format_cmd = [];
  sub_path = [];
  secret_name = [];
  attr = none;
  pv = none;
  pvc = none;
}

-- The app pod that asked for the mount.
pub record AppInfo : Type 0 where
  pub name : Str
  pub namespace : Str

-- The objects of the builders, by the settings, and the settings as JSON.
pub record Builder : Type 0 where
  pub marshal : JfsSetting → Result Str
  pub new_mount_pod : JfsSetting → Str → Pod
  pub new_secret : JfsSetting → Secret
  pub new_create_volume_job : JfsSetting → Job
  pub new_delete_volume_job : JfsSetting → Job
  pub new_clean_cache_job : JfsSetting → Job
  pub new_job_secret : JfsSetting → Job → Secret

abbrev hash_of : (Str → Str) → Result Str → Result Str
hash_of sha256_hex (ok text) = ok (take 63 (sha256_hex text))
hash_of sha256_hex (err e) = err e
hash_of sha256_hex diverged = diverged

-- GenHashOfSetting of pkg/juicefs/mount/pod_mount.go
unfoldable pub gen_hash_of_setting : Builder → (Str → Str) → JfsSetting → Result Str
gen_hash_of_setting b sha256_hex setting =
    hash_of sha256_hex
      (b.marshal (record setting { target_path = []; volume_id = []; sub_path = [] }))
