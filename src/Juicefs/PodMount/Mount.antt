-- ===== src/Juicefs/PodMount/Mount.antt =====
-- JMount of pkg/juicefs/mount/pod_mount.go: find or create the mount pod of a volume, and add the
-- target to its references.
use juicedata_juicefs_csi_dr.Prelude.{
  ℕ, zero, suc, ◌-◌, Bool, true, false, not, ◌||◌, ◌&&◌, Option, none, some, List, [], ◌∷◌, ◌++◌,
  Str, lit, get_str, insert, str_eq, length, drop, ltb, if◌then◌else◌,
}
use juicedata_juicefs_csi_dr.Kube.{
  Pod, annotations_of, hostname_label, unique_id_key, juicefs_uuid, Err, Result, ok, err, diverged,
  other, Query, M, ◌>>=◌, ◌>>◌, pure, fail, lift, when, attempt, ask, is_not_found, is_timeout,
  sleep, with_lock, get_pod, list_pod, list_node, create_pod,
}
use juicedata_juicefs_csi_dr.Util.Names.{get_reference_key}
use juicedata_juicefs_csi_dr.Util.Pods.{wait_until_mount_ready, add_pod_label, add_pod_annotation}
use juicedata_juicefs_csi_dr.Juicefs.Settings.{JfsSetting, AppInfo, Builder, gen_hash_of_setting}
use juicedata_juicefs_csi_dr.Juicefs.PodMount.Refs.{add_ref_of_mount, secret_name_of}
use juicedata_juicefs_csi_dr.Juicefs.PodMount.Jobs.{create_or_update_secret, get_err_container_log}

unfoldable pub gen_pod_name_by_unique_id : Str → Str → Option Str → Str
gen_pod_name_by_unique_id node unique_id none = lit "juicefs-" ++ (node ++ (lit "-" ++ unique_id))
gen_pod_name_by_unique_id node unique_id (some random) =
    lit "juicefs-" ++ (node ++ (lit "-" ++ (unique_id ++ (lit "-" ++ random))))

unfoldable pub is_on_node : Str → Pod → Bool
is_on_node node pod =
    str_eq pod.node_name node || str_eq (get_str hostname_label pod.node_selector) node

-- The first pod on the node that is not being deleted.
unfoldable pub usable_pod : Str → List Pod → Option Str
usable_pod node [] = none
usable_pod node (pod ∷ pods) =
    if not pod.deleting && is_on_node node pod then some pod.name else usable_pod node pods

unfoldable pub mount_pod_query : Str → Str → Str → Query
mount_pod_query namespace unique_id hash = record {
  namespace = namespace;
  labels =
      (lit "app.kubernetes.io/name", lit "juicefs-mount")
      ∷ (lit "volume-id", unique_id)
      ∷ (lit "juicefs-hash", hash)
      ∷ [];
  fields = [];
  keys = [];
}

unfoldable pub gen_mount_pod_name : Builder → JfsSetting → M Str
gen_mount_pod_name b setting = do
  sha256_hex ← ask (λ env t. env.sha256_hex)
  hash ← lift (gen_hash_of_setting b sha256_hex setting)
  namespace ← ask (λ env t. env.mount_namespace)
  pods ← list_pod (mount_pod_query namespace setting.unique_id hash)
  node ← ask (λ env t. env.node)
  random ← ask (λ env t. env.random_suffix t)
  elim (usable_pod node pods) [
    | some name ↦ pure name
    | none ↦ pure (gen_pod_name_by_unique_id node setting.unique_id (some random))
  ]

-- podName[len(podName)-7:], which panics for a shorter name.
unfoldable pub name_suffix : Str → Result Str
name_suffix pod_name =
    if ltb (length pod_name) 7 then diverged else ok (drop (length pod_name - 7) pod_name)

abbrev pub is_single_node : Str → Result (List Str) → Bool
is_single_node node (ok (n ∷ [])) = str_eq n node
is_single_node node _ = false

unfoldable pub copy_scheduling : Option AppInfo → Pod → M Pod
copy_scheduling none pod = pure pod
copy_scheduling (some app) pod = if str_eq app.name [] then pure pod else do
  r ← attempt (get_pod app.name app.namespace)
  elim r [
    | ok app_pod ↦ pure (record pod { scheduling = app_pod.scheduling })
    | err e ↦ pure pod
    | diverged ↦ lift diverged
  ]

-- With the node selector on, the pod names its node by the label, if that names one node.
unfoldable pub select_node : Option AppInfo → Pod → M Pod
select_node app pod = do
  enabled ← ask (λ env t. env.enable_node_selector)
  if not enabled then pure pod else do
    let selector = (hostname_label, pod.node_name) ∷ []
    nodes ← attempt (list_node selector)
    if is_single_node pod.node_name nodes
        then copy_scheduling app (record pod { node_name = []; node_selector = selector })
        else pure pod

unfoldable pub new_pod_for : Builder → JfsSetting → Str → Str → Str → Pod
new_pod_for b setting pod_name key hash =
    let pod = b.new_mount_pod setting pod_name in
    record pod {
      annotations = some (insert key setting.target_path (annotations_of pod));
      labels = insert (lit "juicefs-hash") hash pod.labels;
    }

unfoldable pub create_mount_pod :
    Builder → JfsSetting → Option AppInfo → Str → Str → Str → M (Unit {0})
create_mount_pod b setting app pod_name key hash = do
  new_pod ← select_node app (new_pod_for b setting pod_name key hash)
  create_or_update_secret (b.new_secret setting)
  create_pod new_pod

unfoldable pub create_if_missing :
    Builder → JfsSetting → Option AppInfo → Str → Str → Str → Err → M (Unit {0})
create_if_missing b setting app pod_name key hash e =
    if is_not_found e
    then create_mount_pod b setting app pod_name key hash
    else if is_timeout e
    then fail (other "mount pod deleting timeout")
    else fail e

-- The loop of createOrAddRef, for `fuel` rounds.
unfoldable pub create_or_add :
    ℕ → Builder → JfsSetting → Option AppInfo → Str → Str → Str → M (Unit {0})
create_or_add zero b setting app pod_name key hash = lift diverged
create_or_add (suc fuel) b setting app pod_name key hash = do
  namespace ← ask (λ env t. env.mount_namespace)
  r ← attempt (get_pod pod_name namespace)
  elim r [
    | ok old_pod ↦ elim old_pod.deleting [
      | true ↦ do sleep; create_or_add fuel b setting app pod_name key hash
      | false ↦ do
        create_or_update_secret (b.new_secret setting)
        add_ref_of_mount setting.target_path pod_name
    ]
    | err e ↦ create_if_missing b setting app pod_name key hash e
    | diverged ↦ lift diverged
  ]

-- createOrAddRef sets the mount path and the name of the secret in the settings.
unfoldable pub create_or_add_ref : ℕ → Builder → Str → JfsSetting → Option AppInfo → M JfsSetting
create_or_add_ref fuel b pod_name setting app = do
  sha256_hex ← ask (λ env t. env.sha256_hex)
  hash ← lift (gen_hash_of_setting b sha256_hex setting)
  suffix ← lift (name_suffix pod_name)
  let named = record setting {
    mount_path = setting.mount_path ++ suffix;
    secret_name = secret_name_of pod_name;
  }
  with_lock pod_name (
      create_or_add fuel b named app pod_name (get_reference_key sha256_hex named.target_path) hash)
  pure named

unfoldable pub set_mount_label : AppInfo → M (Unit {0})
set_mount_label app = do
  pod ← get_pod app.name app.namespace
  add_pod_label pod ((unique_id_key, []) ∷ [])

unfoldable pub label_app_pod : Option AppInfo → M (Unit {0})
label_app_pod none = pure tt
label_app_pod (some app) =
    when (not (str_eq app.name []) && not (str_eq app.namespace [])) (set_mount_label app)

-- waitUtilMountReady: the log of a container is part of the error's text only.
unfoldable pub wait_mounted : ℕ → JfsSetting → Str → M (Unit {0})
wait_mounted fuel setting pod_name = do
  r ← attempt (wait_until_mount_ready fuel setting.mount_path)
  elim r [
    | ok u ↦ pure tt
    | err e ↦ do attempt (get_err_container_log pod_name); fail (other "mount isn't ready")
    | diverged ↦ lift diverged
  ]

unfoldable pub set_uuid_annotation : Str → Str → M (Unit {0})
set_uuid_annotation pod_name uuid = do
  namespace ← ask (λ env t. env.mount_namespace)
  pod ← get_pod pod_name namespace
  add_pod_annotation pod ((juicefs_uuid, uuid) ∷ [])

-- `get_uuid` is GetJfsVolUUID, which runs the command `juicefs status`. The settings are answered
-- as createOrAddRef leaves them.
unfoldable pub j_mount : ℕ → Builder → (Str → M Str) → Option AppInfo → JfsSetting → M JfsSetting
j_mount fuel b get_uuid app setting = do
  pod_name ← gen_mount_pod_name b setting
  label_app_pod app
  named ← create_or_add_ref fuel b pod_name setting app
  wait_mounted fuel named pod_name
  when (named.clean_cache && str_eq named.uuid [])
      do uuid ← get_uuid named.source; set_uuid_annotation pod_name uuid
  pure named
