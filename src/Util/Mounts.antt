-- ===== src/Util/Mounts.antt =====
-- UmountPath of pkg/util/util.go.
use juicedata_juicefs_csi_dr.Prelude.{Bool, ◌||◌, Str, lit, contains}
use juicedata_juicefs_csi_dr.Kube.{M, ◌>>◌, pure, umount}

-- Does the output of `umount` say that nothing is mounted there?
unfoldable pub says_not_mounted : Str → Bool
says_not_mounted output =
    contains output (lit "not mounted")
    || (contains output (lit "mountpoint not found")
        || contains output (lit "no mount point specified"))

-- What goes wrong is logged only.
unfoldable pub umount_path : Str → M (Unit {0})
umount_path path = do umount path; pure tt
