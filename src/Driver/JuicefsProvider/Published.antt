-- ===== src/Driver/JuicefsProvider/Published.antt =====
-- NodePublishVolume of pkg/driver/node.go with the provider of pkg/juicefs/juicefs.go.
use juicedata_juicefs_csi_dr.Prelude.{ℕ, ◌≡◌, true, Str, lit, get_str, some}
use juicedata_juicefs_csi_dr.Kube.{Env, Trace, ok}
use juicedata_juicefs_csi_dr.Juicefs.Settings.{JfsSetting, Builder}
use juicedata_juicefs_csi_dr.Juicefs.PodMount.Ready.{Readied}
use juicedata_juicefs_csi_dr.Juicefs.Provider.Files.{create_vol, bind_target, create_target}
use juicedata_juicefs_csi_dr.Juicefs.Provider.Mounts.{Juicefs, mount_point_of, get_jfs_vol_uuid}
use juicedata_juicefs_csi_dr.Juicefs.Provider.Mounted.{Mounted}
use juicedata_juicefs_csi_dr.Driver.Node.Publish.{PublishRequest, mount_options}
use juicedata_juicefs_csi_dr.Driver.JuicefsProvider.{new_jfs_provider, given}
use juicedata_juicefs_csi_dr.Driver.Capability.{VolumeCapability}

-- What has been done for a volume that is published, since the history `t`, each call where the one
-- before it has left off.
pub record Published (fuel : ℕ) (b : Builder) (j : Juicefs) (req : PublishRequest) (env : Env)
    (t : Trace) : Type 0 where
  pub capability : VolumeCapability
  pub with_capability : req.capability ≡ some capability
  pub after_target : Trace
  pub target : create_target fuel req.target_path env t ≡ (ok tt, after_target)
  -- the settings that the mount left
  pub setting : JfsSetting
  pub after_mount : Trace
  pub mounted :
      Mounted
        (new_jfs_provider fuel b j)
        req.volume_id
        req.target_path
        (given req.secrets)
        (given req.volume_context)
        (mount_options req capability)
        env
        after_target
        setting
        after_mount
  -- a mount pod is ready
  pub ready :
      mounted.made.use_pod ≡ true
      → Readied fuel b get_jfs_vol_uuid mounted.app
          (record mounted.made { mount_path = mount_point_of mounted.made })
          setting
          env
          mounted.before
          after_mount
  pub source : Str
  pub after_create : Trace
  pub prepared :
      create_vol setting.mount_path (get_str (lit "subPath") req.volume_context) env after_mount
      ≡ (ok source, after_create)
  pub after_bind : Trace
  pub bound :
      bind_target setting.mount_path source req.target_path env after_create ≡ (ok tt, after_bind)
