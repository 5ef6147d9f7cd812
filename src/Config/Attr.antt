-- ===== src/Config/Attr.antt =====
-- GenPodAttrWithCfg of pkg/config/setting.go: the attributes of a mount pod.
use juicedata_juicefs_csi_dr.Prelude.{
  Bool, Option, none, some, List, [], ◌∷◌, Str, lit, is_empty, get_str, get_or_else, insert, GoMap,
  if◌then◌else◌,
}
use juicedata_juicefs_csi_dr.Kube.{Result, ok, err, diverged}
use juicedata_juicefs_csi_dr.Config.Resources.{Requirements, Parser, parse_pod_resources}
use juicedata_juicefs_csi_dr.Config.Patches.{MountPodPatch, PatchLibrary, gen_mount_pod_patch}
use juicedata_juicefs_csi_dr.Juicefs.Settings.{JfsSetting, PodAttr}

-- The variables of the package: names and paths, parts of the driver's own pod, images, and the
-- patches of the configuration file.
pub record Globals : Type 0 where
  pub namespace : Str
  pub mount_point_path : Str
  pub jfs_config_path : Str
  pub priority_name : Str
  pub host_network : Bool
  pub host_pid : Bool
  pub service_account : Str
  pub preemption_policy : Option Str
  pub inherited : Str
  pub ce_image : Str
  pub ee_image : Str
  pub mount_preemption_policy : Str
  pub client_conf_path : Str
  pub patches : List MountPodPatch

-- Libraries: quantities, durations, JSON and YAML. `unmarshal_setting` reads the secrets into the
-- fields that they name.
pub record Library : Type 0 where
  pub parse_quantity : Parser
  pub parse_duration : Str → Bool
  pub string_map : Str → Result (GoMap Str)
  pub inline_volumes : Str → Result (List Str)
  pub unmarshal_setting : GoMap Str → JfsSetting → Result JfsSetting
  pub patches : PatchLibrary

infixl 5 ◌>>=◌
abbrev pub ◌>>=◌ {ℓ κ} : {A : Type ℓ} {B : Type κ} → Result A → (A → Result B) → Result B
ok a >>= f = f a
err e >>= f = err e
diverged >>= f = diverged

unfoldable pub default_resource : Requirements
default_resource = record {
  limits = (lit "cpu", lit "2000m") ∷ (lit "memory", lit "5Gi") ∷ [];
  requests = (lit "cpu", lit "1000m") ∷ (lit "memory", lit "1Gi") ∷ [];
}

unfoldable pub default_attr : Globals → Bool → PodAttr
unfolding default_resource
default_attr g is_ce = record {
  namespace = g.namespace;
  mount_point_path = g.mount_point_path;
  jfs_config_path = g.jfs_config_path;
  priority_name = g.priority_name;
  service_account = g.service_account;
  resources = default_resource;
  labels = [];
  annotations = [];
  liveness_probe = none;
  readiness_probe = none;
  startup_probe = none;
  lifecycle = none;
  image = if is_ce then g.ce_image else g.ee_image;
  host_network = g.host_network;
  host_pid = g.host_pid;
  preemption_policy = g.preemption_policy;
  inherited = g.inherited;
}

unfoldable pub insert_all : GoMap Str → GoMap Str → GoMap Str
unfolding insert
insert_all [] m = m
insert_all ((k, v) ∷ entries) m = insert_all entries (insert k v m)

abbrev pub nonempty_or : Str → Str → Str
nonempty_or old new = if is_empty new then old else new

-- The entries that the text under the key holds, added to the map.
unfoldable pub add_entries : Library → GoMap Str → Str → GoMap Str → Result (GoMap Str)
unfolding insert_all
add_entries lib vol_ctx key m =
    if is_empty (get_str key vol_ctx)
    then ok m
    else do entries ← lib.string_map (get_str key vol_ctx); ok (insert_all entries m)

unfoldable pub attr_of_context : Library → GoMap Str → PodAttr → Result PodAttr
unfolding add_entries parse_pod_resources
attr_of_context lib vol_ctx attr = do
  resources ←
      parse_pod_resources lib.parse_quantity (get_str (lit "juicefs/mount-cpu-limit") vol_ctx)
        (get_str (lit "juicefs/mount-memory-limit") vol_ctx)
        (get_str (lit "juicefs/mount-cpu-request") vol_ctx)
        (get_str (lit "juicefs/mount-memory-request") vol_ctx)
  labels ← add_entries lib vol_ctx (lit "juicefs/mount-labels") attr.labels
  annotations ← add_entries lib vol_ctx (lit "juicefs/mount-annotations") attr.annotations
  ok (record attr {
    image = nonempty_or attr.image (get_str (lit "juicefs/mount-image") vol_ctx);
    service_account =
        nonempty_or attr.service_account (get_str (lit "juicefs/mount-service-account") vol_ctx);
    resources = resources;
    labels = labels;
    annotations = annotations;
  })

unfoldable pub apply_patch : MountPodPatch → PodAttr → PodAttr
unfolding insert_all
apply_patch patch attr = record attr {
  image = nonempty_or attr.image patch.image;
  host_network = get_or_else attr.host_network patch.host_network;
  host_pid = get_or_else attr.host_pid patch.host_pid;
  labels = insert_all (get_or_else [] patch.labels) attr.labels;
  annotations = insert_all (get_or_else [] patch.annotations) attr.annotations;
  resources = get_or_else attr.resources patch.resources;
  lifecycle = patch.lifecycle;
  liveness_probe = patch.liveness_probe;
  readiness_probe = patch.readiness_probe;
  startup_probe = patch.startup_probe;
}

abbrev with_preemption : Globals → PodAttr → PodAttr
with_preemption g attr =
    if is_empty g.mount_preemption_policy
    then attr
    else record attr { preemption_policy = some g.mount_preemption_policy }

unfoldable pub attr_with_context : Library → Option (GoMap Str) → PodAttr → Result PodAttr
unfolding attr_of_context
attr_with_context lib none attr = ok attr
attr_with_context lib (some vol_ctx) attr = attr_of_context lib vol_ctx attr

unfoldable pub gen_pod_attr_with_cfg :
    Globals → Library → JfsSetting → Option (GoMap Str) → Result JfsSetting
unfolding default_attr attr_with_context apply_patch
gen_pod_attr_with_cfg g lib setting vol_ctx = do
  attr ←
      attr_with_context lib vol_ctx
        (with_preemption g (get_or_else (default_attr g setting.is_ce) setting.attr))
  ok (record setting {
    attr = some (apply_patch (gen_mount_pod_patch lib.patches g.patches setting) attr);
  })
