-- ===== src/Examples/Processes.antt =====
-- Mounts by process at a concrete table of mounts.
use juicedata_juicefs_csi_dr.Prelude.{
  ◌≡◌, refl, true, false, [], ◌∷◌, ◌++◌, lit, Str, split, atoi, digits_value, clean_components,
  path_join, int_eq, str_eq, has_prefix,
}
use juicedata_juicefs_csi_dr.Kube.{
  ok, Env, unmount, read_whole, eval_symlinks, path_exists, is_not_mount_point,
}
use juicedata_juicefs_csi_dr.Juicefs.ProcessMount.{
  j_umount, attached, get_mount_device_refs, real_path, consistent_read, read_again, unmount_last,
}
use juicedata_juicefs_csi_dr.Juicefs.ProcessMount.Shared.{Released, unmounts, j_umount-Released}
use juicedata_juicefs_csi_dr.Examples.World.{empty_world}
use juicedata_juicefs_csi_dr.Util.MountTable.{
  parse_mounts, parse_lines, parse_fields, search_mount_points, behind_dash, last_holding, holds,
  path_within_base, components, strip_base, root_path, refs_of, is_ref,
}
use juicedata_juicefs_csi_dr.Util.Names.{fields}

abbrev table_line : Str → Str → Str
table_line id path =
    id ++ (lit " 1 0:51 / " ++ (path ++ lit " rw - fuse.juicefs JuiceFS:fs rw,user_id=0\n"))

-- The file system is mounted at one path and bound to one target.
abbrev shared_table : Str
shared_table =
    lit "20 1 8:1 / / rw shared:1 - ext4 /dev/sda rw\n"
    ++ (table_line (lit "31") (lit "/jfs/pvc-1") ++ table_line (lit "32") (lit "/target"))

abbrev mounting_world : Env
mounting_world = record empty_world {
  path_exists_reply = λ _ _. ok true;
  is_not_mount_point_reply = λ _ _. ok false;
  read_file_reply = λ _ _. ok shared_table;
}

j_umount-Released_example :
    Released (lit "/target") [] (j_umount (lit "/target") mounting_world []).1
j_umount-Released_example = j_umount-Released (lit "/target") mounting_world []

-- With the target goes the mount.
unmounts_both :
    unmounts (j_umount (lit "/target") mounting_world []).1 ≡ lit "/jfs/pvc-1" ∷ lit "/target" ∷ []
unfolding j_umount attached get_mount_device_refs real_path consistent_read read_again parse_mounts
    parse_lines parse_fields search_mount_points unmount_last unmounts split behind_dash atoi
    digits_value fields last_holding holds path_within_base components strip_base clean_components
    root_path path_join refs_of is_ref int_eq str_eq has_prefix unmount read_whole eval_symlinks
    path_exists is_not_mount_point
unmounts_both = refl
