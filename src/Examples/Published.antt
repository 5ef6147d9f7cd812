-- ===== src/Examples/Published.antt =====
-- A volume that is published by a mount pod.
use juicedata_juicefs_csi_dr.Prelude.{true, [], ◌∷◌, lit}
use juicedata_juicefs_csi_dr.Kube.{ok, Env}
use juicedata_juicefs_csi_dr.Driver.Node.Publish.{PublishRequest}
use juicedata_juicefs_csi_dr.Driver.JuicefsProvider.Published.{Published}
use juicedata_juicefs_csi_dr.Examples.World.{empty_world}
use juicedata_juicefs_csi_dr.Examples.Csi.{publish_request}
use juicedata_juicefs_csi_dr.Examples.Provider.{example_target, fs_secrets}

abbrev fs_request : PublishRequest
fs_request = record publish_request { target_path = example_target; secrets = fs_secrets }

-- The new mount pod mounts the file system at once.
abbrev quick_world : Env
quick_world = record empty_world {
  stat_reply = λ _ _. ok (record { inode = 1; perm = 0o777; dev = 51 });
  path_exists_reply = λ _ _. ok true;
  mount_table_reply =
      λ _. ok (record { mount_point = lit "/jfs/pvc-1-abcdef"; root = lit "/"; minor = 51 } ∷ []);
}
