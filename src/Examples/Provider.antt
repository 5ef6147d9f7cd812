-- ===== src/Examples/Provider.antt =====
-- The provider at a concrete volume.
use juicedata_juicefs_csi_dr.Prelude.{true, false, none, [], ◌∷◌, lit, Str, GoMap, refl}
use juicedata_juicefs_csi_dr.Kube.{ok, pure}
use juicedata_juicefs_csi_dr.Config.Attr.{Globals, Library}
use juicedata_juicefs_csi_dr.Juicefs.Provider.Mounts.{Juicefs, Mounter}
use juicedata_juicefs_csi_dr.Examples.Config.{image_library}
use juicedata_juicefs_csi_dr.Examples.Commands.{some_units}
use juicedata_juicefs_csi_dr.Juicefs.Settings.{JfsSetting, empty_setting}
use juicedata_juicefs_csi_dr.Juicefs.Builder.{overwrite_subdir_with_sub_path}
use juicedata_juicefs_csi_dr.Juicefs.Builder.Subdir.{
  Overwritten, overwrite_subdir_with_sub_path-Overwritten,
}

abbrev quiet_mounter : Mounter
quiet_mounter = record {
  j_mount = λ app setting. pure setting;
  j_create_volume = λ setting. pure tt;
  j_delete_volume = λ setting. pure tt;
}

abbrev example_globals : Globals
example_globals = record {
  namespace = lit "kube-system";
  mount_point_path = [];
  jfs_config_path = [];
  priority_name = [];
  host_network = false;
  host_pid = false;
  service_account = [];
  preemption_policy = none;
  inherited = [];
  ce_image = lit "juicedata/mount:ce";
  ee_image = lit "juicedata/mount:ee";
  mount_preemption_policy = [];
  client_conf_path = [];
  patches = [];
}

-- Every duration can be read, and no quantity; a map as text is empty.
abbrev example_library : Library
example_library = record {
  parse_quantity = λ s. none;
  parse_duration = λ s. true;
  string_map = λ s. ok [];
  inline_volumes = λ s. ok [];
  unmarshal_setting = λ secrets setting. ok setting;
  patches = image_library;
}

abbrev pub example_juicefs : Juicefs
example_juicefs = record {
  pod_mount = quiet_mounter;
  process_mount = quiet_mounter;
  has_client = false;
  kubelet = none;
  kubelet_dir = lit "/var/lib/kubelet";
  globals = example_globals;
  library = example_library;
  sizes = some_units;
}

abbrev pub example_target : Str
example_target = lit "/var/lib/kubelet/pods/p/mount"

abbrev pub fs_secrets : GoMap Str
fs_secrets =
    (lit "name", lit "fs")
    ∷ (lit "metaurl", lit "redis://db")
    ∷ (lit "storage", lit "s3")
    ∷ (lit "bucket", lit "b")
    ∷ []

abbrev nested_setting : JfsSetting
nested_setting = record empty_setting {
  sub_path = lit "pvc-1";
  options = lit "subdir=/a" ∷ lit "ro" ∷ lit "subdir=/b" ∷ [];
}

overwrite_subdir_with_sub_path-Overwritten_example :
    Overwritten
      (lit "pvc-1")
      nested_setting.options
      (overwrite_subdir_with_sub_path nested_setting).options
overwrite_subdir_with_sub_path-Overwritten_example =
    overwrite_subdir_with_sub_path-Overwritten nested_setting refl
