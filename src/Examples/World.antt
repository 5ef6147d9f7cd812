-- ===== src/Examples/World.antt =====
-- A host and an API server for the examples: nothing is there, and every change succeeds.
use juicedata_juicefs_csi_dr.Prelude.{
  true, false, ◌&&◌, none, some, [], ◌∷◌, lit, Str, GoMap, str_eq, str_eq_iff, if◌then◌else◌, arith,
}
use juicedata_juicefs_csi_dr.Kube.{Env, Pod, Container, ok, err, not_found, not_exist, finalizer}
use juicedata_juicefs_csi_dr.Util.Guarded.{AnswersByName}
use juicedata_juicefs_csi_dr.Juicefs.Settings.{JfsSetting, empty_setting}

-- The hash of a text is the text.
abbrev pub empty_world : Env
empty_world = record {
  get_pod_reply = λ _ _ _. err not_found;
  list_pods_reply = λ _ _. ok [];
  get_pod_log_reply = λ _ _ _ _. err not_found;
  list_nodes_reply = λ _ _. ok [];
  create_pod_reply = λ _ _. ok tt;
  patch_pod_reply = λ _ _ _ _. ok tt;
  delete_pod_reply = λ _ _ _. ok tt;
  get_secret_reply = λ _ _ _. err not_found;
  create_secret_reply = λ _ _. ok tt;
  update_secret_reply = λ _ _. ok tt;
  delete_secret_reply = λ _ _ _. ok tt;
  get_job_reply = λ _ _ _. err not_found;
  create_job_reply = λ _ _. err not_found;
  delete_job_reply = λ _ _ _. ok tt;
  get_pv_reply = λ _ _. err not_found;
  get_pvc_reply = λ _ _ _. err not_found;
  list_pvs_reply = λ _. ok [];
  patch_secret_reply = λ _ _ _ _. ok tt;
  run_reply = λ _ _. record { failed = true; timed_out = false; output = [] };
  lookup_env = λ _. none;
  write_file_reply = λ _ _ _. ok tt;
  stat_reply = λ _ _. err not_found;
  path_exists_reply = λ _ _. err not_found;
  umount_reply = λ _ _. record { failed = true; output = lit "not mounted" };
  bind_reply = λ _ _ _. ok tt;
  cleanup_reply = λ _ _. ok tt;
  mount_table_reply = λ _. ok [];
  is_not_mount_point_reply = λ _ _. err not_found;
  statfs_reply = λ _ _. err not_found;
  mkdir_all_reply = λ _ _ _. ok tt;
  chmod_reply = λ _ _ _. ok tt;
  mount_reply = λ _ _ _ _. ok tt;
  unmount_reply = λ _ _. ok tt;
  is_likely_not_mount_point_reply = λ _ _. ok true;
  eval_symlinks_reply = λ _ path. ok path;
  read_file_reply = λ _ _. err not_exist;
  remove_all_reply = λ _ _. ok tt;
  now = λ _. 0;
  parse_duration = λ _. none;
  format_time = λ _. [];
  parse_time = λ _. none;
  context_error = λ _. none;
  parse_quantity = λ _. none;
  quantity_value = λ _. none;
  sha256_hex = λ s. s;
  random_suffix = λ _. lit "abcdef";
  backoff_steps = 4;
  enable_node_selector = false;
  share_mount = false;
  by_process = false;
  provisioner = false;
  driver_name = lit "csi.juicefs.com";
  node = lit "node-a";
  mount_namespace = lit "kube-system";
}

abbrev pub mount_container : Container
mount_container = record {
  name = lit "jfs-mount";
  image = lit "juicedata/mount";
  command = lit "sh" ∷ lit "-c" ∷ lit "juicefs mount redis /jfs/pvc-1-abcdef" ∷ [];
  requests = (lit "cpu", lit "1000m") ∷ [];
  limits = [];
}

-- A mount pod on the node, with the annotations.
abbrev pub mount_pod : GoMap Str → Pod
mount_pod annotations = record {
  name = lit "juicefs-node-a-pvc-1";
  namespace = lit "kube-system";
  uid = lit "0001";
  labels = [];
  annotations = some annotations;
  finalizers = finalizer ∷ [];
  deleting = false;
  node_name = lit "node-a";
  node_selector = [];
  containers = mount_container ∷ [];
  volumes = [];
  grace_period = none;
  scheduling = [];
  phase = lit "Running";
  reason = [];
  message = [];
  conditions = [];
  init_container_statuses = [];
  container_statuses = [];
}

-- A world with one pod.
abbrev pub world_with : Pod → Env
world_with pod = record empty_world {
  get_pod_reply = λ _ name namespace.
      if str_eq name pod.name && str_eq namespace pod.namespace then ok pod else err not_found;
}

pub world_with-AnswersByName : (pod : Pod) → AnswersByName (world_with pod)
world_with-AnswersByName pod t name namespace found e =
    ground (arith, str_eq_iff name pod.name, str_eq_iff namespace pod.namespace)

abbrev pub example_setting : JfsSetting
example_setting = record empty_setting {
  unique_id = lit "pvc-1";
  volume_id = lit "pvc-1";
  target_path = lit "/target";
  mount_path = lit "/jfs/pvc-1";
}
