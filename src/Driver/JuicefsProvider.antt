-- ===== src/Driver/JuicefsProvider.antt =====
-- The provider of pkg/juicefs/juicefs.go as the CSI services call it, put together: NewJfsProvider
-- with the mounters of pkg/juicefs/mount. Loops run for `fuel` rounds.
pub mod Published
use juicedata_juicefs_csi_dr.Prelude.{ℕ, Option, none, some, [], ◌∷◌, Str, GoMap}
use juicedata_juicefs_csi_dr.Kube.{M, ◌>>=◌, pure}
use juicedata_juicefs_csi_dr.Juicefs.Settings.{JfsSetting, Builder}
use juicedata_juicefs_csi_dr.Juicefs.PodMount.Jobs
use juicedata_juicefs_csi_dr.Juicefs.PodMount.Mount
use juicedata_juicefs_csi_dr.Juicefs.ProcessMount
use juicedata_juicefs_csi_dr.Juicefs.Provider.Commands.{set_quota}
use juicedata_juicefs_csi_dr.Juicefs.Provider.Files.{create_vol, bind_target, create_target}
use juicedata_juicefs_csi_dr.Juicefs.Provider.Mounts.{
  Juicefs, Mounter, settings, jfs_mount, jfs_delete_vol, get_sub_path, get_jfs_vol_uuid,
}
use juicedata_juicefs_csi_dr.Juicefs.Provider.Unmount.{jfs_unmount}
use juicedata_juicefs_csi_dr.Driver.Provider.{Jfs, Provider}

unfoldable pub pod_mounter : ℕ → Builder → Mounter
pod_mounter fuel b = record {
  j_mount = Mount.j_mount fuel b get_jfs_vol_uuid;
  j_create_volume = Jobs.j_create_volume fuel b;
  j_delete_volume = Jobs.j_delete_volume fuel b;
}

unfoldable pub process_mounter : ℕ → Mounter
process_mounter fuel = record {
  j_mount = ProcessMount.j_mount fuel;
  j_create_volume = ProcessMount.j_create_volume fuel;
  j_delete_volume = ProcessMount.j_delete_volume fuel;
}

unfoldable pub new_jfs_provider : ℕ → Builder → Juicefs → Juicefs
unfolding pod_mounter process_mounter
new_jfs_provider fuel b j = record j {
  pod_mount = pod_mounter fuel b;
  process_mount = process_mounter fuel;
}

unfoldable pub mounted_jfs : JfsSetting → Jfs
mounted_jfs setting = record { mount_path = setting.mount_path; setting = setting }

-- A map of a request that has no entries is nil.
abbrev pub given : GoMap Str → Option (GoMap Str)
given [] = none
given (e ∷ m) = some (e ∷ m)

-- `Interface` of the provider. JfsUnmount is the one for mount pods.
unfoldable pub provider : ℕ → Juicefs → Provider
unfolding mounted_jfs
provider fuel j = record {
  create_target = create_target fuel;
  jfs_mount = λ volume_id target secrets vol_ctx options.
      jfs_mount j volume_id target (given secrets) (given vol_ctx) options >>= λ setting.
      pure (mounted_jfs setting);
  jfs_unmount = jfs_unmount fuel;
  jfs_delete_vol = λ volume_id sub_path secrets vol_ctx options.
      jfs_delete_vol j volume_id sub_path (some secrets) (some vol_ctx) options;
  create_vol = λ jfs volume_id sub_path. create_vol jfs.mount_path sub_path;
  bind_target = λ jfs bind_source target. bind_target jfs.mount_path bind_source target;
  set_quota = set_quota;
  settings = λ volume_id secrets vol_ctx options.
      settings j volume_id (given secrets) (given vol_ctx) options;
  get_sub_path = get_sub_path;
}
