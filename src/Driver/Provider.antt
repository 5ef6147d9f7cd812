-- ===== src/Driver/Provider.antt =====
-- The provider of file systems as the CSI services see it: the interfaces Interface and Jfs of
-- pkg/juicefs/juicefs.go.
use juicedata_juicefs_csi_dr.Prelude.{ℕ, List, Str, GoMap}
use juicedata_juicefs_csi_dr.Kube.{M}
use juicedata_juicefs_csi_dr.Juicefs.Settings.{JfsSetting}

-- A mounted file system.
pub record Jfs : Type 0 where
  pub mount_path : Str
  pub setting : JfsSetting

pub record Provider : Type 0 where
  pub create_target : Str → M (Unit {0})
  pub jfs_mount : Str → Str → GoMap Str → GoMap Str → List Str → M Jfs
  pub jfs_unmount : Str → Str → M (Unit {0})
  pub jfs_delete_vol : Str → Str → GoMap Str → GoMap Str → List Str → M (Unit {0})
  pub create_vol : Jfs → Str → Str → M Str
  pub bind_target : Jfs → Str → Str → M (Unit {0})
  pub set_quota : GoMap Str → JfsSetting → Str → ℕ → M (Unit {0})
  pub settings : Str → GoMap Str → GoMap Str → List Str → M JfsSetting
  pub get_sub_path : Str → M Str
