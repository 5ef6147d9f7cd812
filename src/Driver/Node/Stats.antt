-- ===== src/Driver/Node/Stats.antt =====
-- NodeGetVolumeStats of pkg/driver/node.go, and GetDiskUsage of pkg/util/util.go.
use juicedata_juicefs_csi_dr.Prelude.{ℕ, ◌+◌, ◌-◌, ◌*◌, ◌%◌, ◌^◌, not, Str, is_empty, if◌then◌else◌}
use juicedata_juicefs_csi_dr.Kube.{
  Statfs, ok, err, diverged, status, invalid_argument, internal, absent, M, ◌>>=◌, ◌>>◌, pure, fail,
  lift, attempt, path_exists, is_not_mount_point, statfs,
}
use juicedata_juicefs_csi_dr.Driver.Controller.Expand.{or_status}

abbrev pub word : ℕ
word = 2 ^ 64

-- `int64(a) - int64(b)` as a bit pattern.
unfoldable pub sub64 : ℕ → ℕ → ℕ
sub64 a b = (a + word - b) % word

pub record DiskUsage : Type 0 where
  pub total_size : ℕ
  pub free_size : ℕ
  pub total_files : ℕ
  pub free_files : ℕ

unfoldable pub usage_of : Statfs → DiskUsage
usage_of stat = record {
  total_size = stat.bsize * stat.blocks % word;
  free_size = stat.bsize * stat.bfree % word;
  total_files = stat.files;
  free_files = stat.ffree;
}

unfoldable pub get_disk_usage : Str → M DiskUsage
get_disk_usage path = do
  r ← attempt (statfs path)
  elim r [
    | ok stat ↦ pure (usage_of stat)
    | err e ↦ pure (record { total_size = 1; free_size = 1; total_files = 1; free_files = 1 })
    | diverged ↦ lift diverged
  ]

-- One entry of the reply, for bytes or for inodes.
pub record VolumeUsage : Type 0 where
  pub available : ℕ
  pub total : ℕ
  pub used : ℕ

unfoldable pub usage : ℕ → ℕ → VolumeUsage
unfolding sub64
usage total free = record { available = free; total = total; used = sub64 total free }

-- The `mounter` of the service is set.
unfoldable pub require_mounted : Str → M (Unit {0})
require_mounted path = do
  exists ← or_status (status internal "Check volume path") (path_exists path)
  if not exists then fail (status absent "Volume path not exists") else do
    not_mnt ←
        or_status (status internal "Check volume path is mountpoint failed")
          (is_not_mount_point path)
    if not_mnt then fail (status internal "Volume path not mounted") else pure tt

unfoldable pub node_get_volume_stats : Str → Str → M (VolumeUsage × VolumeUsage)
node_get_volume_stats volume_id path =
    if is_empty volume_id
    then fail (status invalid_argument "Volume ID not provided")
    else if is_empty path
    then fail (status invalid_argument "Volume path not provided")
    else do
      require_mounted path
      disk ← get_disk_usage path
      pure (usage disk.total_size disk.free_size, usage disk.total_files disk.free_files)
