-- ===== src/Driver/Node/Usage.antt =====
-- What NodeGetVolumeStats of pkg/driver/node.go reports, and when it reports anything.
use juicedata_juicefs_csi_dr.Prelude.{
  ℕ, ◌+◌, ◌*◌, ◌%◌, ◌≤◌, ◌<◌, ◌≡◌, refl, true, false, ◌∷◌, Str, is_empty, arith,
}
use juicedata_juicefs_csi_dr.Kube.{
  Env, Trace, Statfs, ok, path_exists, is_not_mount_point, checked_path, checked_not_mount_point,
  statfs,
}
use juicedata_juicefs_csi_dr.Driver.Controller.Expand.{or_status}
use juicedata_juicefs_csi_dr.Driver.Node.Stats.{
  word, sub64, usage, usage_of, VolumeUsage, get_disk_usage, require_mounted, node_get_volume_stats,
}

-- The numbers of a file system whose sizes fit a machine word.
pub record Fits (stat : Statfs) : Type 0 where
  pub size : stat.bsize * stat.blocks < word
  pub free : stat.bfree ≤ stat.blocks
  pub free_files : stat.ffree ≤ stat.files
  pub files : stat.files < word

used-add-free : (total free : ℕ) → free ≤ total → total < word → sub64 total free + free ≡ total
unfolding sub64
used-add-free total free h k = omega arith

free-lt-word : (stat : Statfs) → Fits stat → stat.bsize * stat.bfree ≤ stat.bsize * stat.blocks
free-lt-word stat f = grind arith

-- The reply for a mounted volume: used and free add up to the total, in bytes and in inodes.
pub record Adds (stat : Statfs) (bytes inodes : VolumeUsage) : Type 0 where
  pub total : bytes.total ≡ stat.bsize * stat.blocks
  pub available : bytes.available ≡ stat.bsize * stat.bfree
  pub bytes_add : bytes.used + bytes.available ≡ bytes.total
  pub total_inodes : inodes.total ≡ stat.files
  pub inodes_add : inodes.used + inodes.available ≡ inodes.total

usage-Adds :
    (stat : Statfs)
    → Fits stat
    → let disk = usage_of stat in
      Adds stat (usage disk.total_size disk.free_size) (usage disk.total_files disk.free_files)
unfolding usage usage_of
usage-Adds stat f =
    let le = free-lt-word stat f in
    let total : stat.bsize * stat.blocks % word ≡ stat.bsize * stat.blocks =
      omega (arith, f.size) in
    let free : stat.bsize * stat.bfree % word ≡ stat.bsize * stat.bfree =
      omega (arith, f.size, le) in
    record {
      total = total;
      available = free;
      bytes_add = rw (total, free) (used-add-free _ _ le f.size);
      total_inodes = refl;
      inodes_add = used-add-free stat.files stat.ffree f.free_files f.files;
    }

-- A mounted volume gets a reply, and the numbers of the reply add up.
pub stats-Adds :
    (env : Env) (t : Trace) (volume_id path : Str) (stat : Statfs)
    → is_empty volume_id ≡ false
    → is_empty path ≡ false
    → env.path_exists_reply t path ≡ ok true
    → env.is_not_mount_point_reply (checked_path path (ok true) ∷ t) path ≡ ok false
    → env.statfs_reply
        (checked_not_mount_point path (ok false) ∷ checked_path path (ok true) ∷ t)
        path
      ≡ ok stat
    → Fits stat
    → (bytes : VolumeUsage) × (inodes : VolumeUsage) × ((node_get_volume_stats volume_id path env
          t).0
        ≡ ok (bytes, inodes))
      × Adds stat bytes inodes
unfolding node_get_volume_stats require_mounted get_disk_usage or_status path_exists
    is_not_mount_point statfs
stats-Adds env t volume_id path stat h k exists mounted known f =
    (_, _, rw (h, k, exists, mounted, known), usage-Adds stat f)
