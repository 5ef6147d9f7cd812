-- ===== src/Config/Patches.antt =====
-- The patches of mount pods of pkg/config/config.go.
pub mod Merged
use juicedata_juicefs_csi_dr.Prelude.{
  Bool, true, false, Option, none, some, List, [], ◌∷◌, Str, lit, is_empty, replace_all, GoMap,
  if◌then◌else◌,
}
use juicedata_juicefs_csi_dr.Kube.{Pvc}
use juicedata_juicefs_csi_dr.Config.Resources.{Requirements}
use juicedata_juicefs_csi_dr.Juicefs.Settings.{JfsSetting}

-- `none` is nil; a selector, a probe and a lifecycle are texts that stand for the object.
pub record MountPodPatch : Type 0 where
  pub pvc_selector : Option Str
  pub ce_mount_image : Str
  pub ee_mount_image : Str
  pub image : Str
  pub labels : Option (GoMap Str)
  pub annotations : Option (GoMap Str)
  pub host_network : Option Bool
  pub host_pid : Option Bool
  pub liveness_probe : Option Str
  pub readiness_probe : Option Str
  pub startup_probe : Option Str
  pub lifecycle : Option Str
  pub resources : Option Requirements

-- `omitempty` leaves out an empty map.
abbrev nonempty_map : Option (GoMap Str) → Option (GoMap Str)
nonempty_map none = none
nonempty_map (some []) = none
nonempty_map (some (e ∷ m)) = some (e ∷ m)

-- By way of JSON, in which the image has no name.
unfoldable pub deep_copy : MountPodPatch → MountPodPatch
deep_copy mpp = record mpp {
  image = [];
  labels = nonempty_map mpp.labels;
  annotations = nonempty_map mpp.annotations;
}

-- `if new != nil { old = new }`
abbrev pub override {ℓ} : {A : Type ℓ} → Option A → Option A → Option A
override old none = old
override old (some new) = some new

abbrev pub override_text : Str → Str → Str
override_text old new = if is_empty new then old else new

-- The startup probe is not among the fields that are merged.
unfoldable pub merge : MountPodPatch → MountPodPatch → MountPodPatch
merge mpp mp = record mpp {
  ce_mount_image = override_text mpp.ce_mount_image mp.ce_mount_image;
  ee_mount_image = override_text mpp.ee_mount_image mp.ee_mount_image;
  host_network = override mpp.host_network mp.host_network;
  host_pid = override mpp.host_pid mp.host_pid;
  liveness_probe = override mpp.liveness_probe mp.liveness_probe;
  readiness_probe = override mpp.readiness_probe mp.readiness_probe;
  lifecycle = override mpp.lifecycle mp.lifecycle;
  labels = override mpp.labels mp.labels;
  annotations = override mpp.annotations mp.annotations;
  resources = override mpp.resources mp.resources;
}

-- Libraries: does a selector, if it can be read, match labels; JSON of a patch, and what reading a
-- text leaves of a patch.
pub record PatchLibrary : Type 0 where
  pub selects : Str → GoMap Str → Bool
  pub marshal : MountPodPatch → Str
  pub unmarshal : Str → MountPodPatch → MountPodPatch

unfoldable pub selected : PatchLibrary → Option Pvc → Option Str → Bool
selected lib pvc none = true
selected lib none (some selector) = false
selected lib (some pvc) (some selector) = lib.selects selector pvc.labels

unfoldable pub merge_all :
    PatchLibrary → Option Pvc → MountPodPatch → List MountPodPatch → MountPodPatch
unfolding merge deep_copy selected
merge_all lib pvc patch [] = patch
merge_all lib pvc patch (mp ∷ mps) =
    merge_all lib pvc
      (if selected lib pvc mp.pvc_selector then merge patch (deep_copy mp) else patch) mps

abbrev pub no_patch : MountPodPatch
no_patch = record {
  pvc_selector = none;
  ce_mount_image = [];
  ee_mount_image = [];
  image = [];
  labels = some [];
  annotations = some [];
  host_network = none;
  host_pid = none;
  liveness_probe = none;
  readiness_probe = none;
  startup_probe = none;
  lifecycle = none;
  resources = none;
}

unfoldable pub fill_in : JfsSetting → Str → Str
unfolding replace_all
fill_in setting text =
    replace_all
      (replace_all (replace_all text (lit "${MOUNT_POINT}") setting.mount_path) (lit "${VOLUME_ID}")
        setting.volume_id)
      (lit "${SUB_PATH}") setting.sub_path

unfoldable pub with_image : JfsSetting → MountPodPatch → MountPodPatch
with_image setting patch = record patch {
  image = if setting.is_ce then patch.ce_mount_image else patch.ee_mount_image;
}

unfoldable pub gen_mount_pod_patch : PatchLibrary → List MountPodPatch → JfsSetting → MountPodPatch
unfolding merge_all with_image fill_in
gen_mount_pod_patch lib patches setting =
    let patch = with_image setting (merge_all lib setting.pvc no_patch patches) in
    lib.unmarshal (fill_in setting (lib.marshal patch)) patch
