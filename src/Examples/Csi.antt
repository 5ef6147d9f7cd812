-- ===== src/Examples/Csi.antt =====
-- The CSI services at concrete requests.
use juicedata_juicefs_csi_dr.Prelude.{
  ◌≡◌, ◌↔◌, refl, true, some, [], ◌∷◌, lit, lookup, insert, arith, List, all, Str, GoMap,
  contains_string, none, is_empty, false,
}
use juicedata_juicefs_csi_dr.Kube.{
  ok, err, status, already_exists, invalid_argument, timeout, Env, Statfs, pure, fail,
}
use juicedata_juicefs_csi_dr.Driver.Capability.{
  VolumeCapability, mount, single_node_writer, multi_node_reader_only, is_valid_volume_capabilities,
  has_support,
}
use juicedata_juicefs_csi_dr.Driver.Controller.Create.{
  CreateRequest, created, create_volume, validate_volume_capabilities, create_supported,
  record_volume, is_too_small, is_read_only,
}
use juicedata_juicefs_csi_dr.Driver.Controller.Volumes.{
  IsAcceptable, create_volume_iff, resized, create_volume_forgets, read_only_recorded,
}
use juicedata_juicefs_csi_dr.Driver.Controller.Delete.{
  begin_delete, deleting, check_dynamic_pv, matches_somewhere, matches_here,
}
use juicedata_juicefs_csi_dr.Driver.Controller.Deletions.{
  System, next, here, enter, IsExclusive, Reach-IsExclusive,
}
use juicedata_juicefs_csi_dr.Driver.Provider.{Provider}
use juicedata_juicefs_csi_dr.Driver.Node.Publish.{
  PublishRequest, node_publish_volume, publish_supported, mount_and_bind, or_counted, set_quota,
}
use juicedata_juicefs_csi_dr.Driver.Node.Stats.{VolumeUsage, node_get_volume_stats}
use juicedata_juicefs_csi_dr.Driver.Node.Usage.{Adds, Fits, stats-Adds}
use juicedata_juicefs_csi_dr.Driver.Node.Binding.{IsBound, node_publish_volume-IsBound}
use juicedata_juicefs_csi_dr.Examples.World.{empty_world, example_setting}
use juicedata_juicefs_csi_dr.Driver.Locks.{try_acquire}
use juicedata_juicefs_csi_dr.Driver.Controller.Expand.{
  or_status, ExpandRequest, controller_expand_volume, expand_within, set_capacity,
}
use juicedata_juicefs_csi_dr.Driver.Controller.Expansions.{
  Expanded, controller_expand_volume-Expanded,
}

abbrev writer : VolumeCapability
writer = record { access_type = mount []; access_mode = single_node_writer }

abbrev reader : VolumeCapability
reader = record { access_type = mount []; access_mode = multi_node_reader_only }

abbrev ten_bytes : CreateRequest
ten_bytes = record {
  name = lit "pvc-1";
  capabilities = some (writer ∷ []);
  required_bytes = 10;
  parameters = [];
}

abbrev read_only_request : CreateRequest
read_only_request = record ten_bytes { capabilities = some (reader ∷ []) }

create_volume_iff_example :
    (create_volume [] ten_bytes ≡ (ok (created ten_bytes), insert (lit "pvc-1") 10 []))
    ↔ ((caps : List VolumeCapability) × IsAcceptable [] ten_bytes caps)
create_volume_iff_example = create_volume_iff [] ten_bytes

served_once : (create_volume [] ten_bytes).0 ≡ ok (created ten_bytes)
unfolding create_volume create_supported is_valid_volume_capabilities all has_support record_volume
    is_too_small lookup is_read_only
served_once = refl

create_volume_forgets_example :
    let shrunk = (create_volume (create_volume [] ten_bytes).1 (resized ten_bytes 4)).1 in
    (create_volume shrunk ten_bytes).0 ≡ err (status already_exists "capacity")
create_volume_forgets_example =
    create_volume_forgets [] ten_bytes (created ten_bytes) 4 served_once (omega arith)

read_only_recorded_example :
    ((create_volume [] read_only_request).0
      ≡ err (status invalid_argument "read-only mode cannot be used"))
    × (validate_volume_capabilities
          (create_volume [] read_only_request).1
          (lit "pvc-1")
          (reader ∷ [])
        ≡ ok true)
unfolding is_valid_volume_capabilities all has_support is_read_only is_too_small lookup
read_only_recorded_example =
    read_only_recorded [] read_only_request (reader ∷ []) refl refl refl refl refl refl

abbrev dynamic_id : Str
dynamic_id = lit "pvc-95aba554-3fe4-4433-9d25-d2a63a114367"

abbrev idle : System
idle = record { service = record { vols = (dynamic_id, 10) ∷ []; locks = [] }; running = [] }

-- The lock is taken, and the provider is to delete the volume.
abbrev one_runs : System
one_runs = record {
  service = record { vols = (dynamic_id, 10) ∷ []; locks = dynamic_id ∷ [] };
  running = dynamic_id ∷ [];
}

abbrev some_secrets : GoMap Str
some_secrets = (lit "name", lit "fs") ∷ []

gets_lock : begin_delete idle.service dynamic_id some_secrets ≡ (deleting, one_runs.service)
unfolding begin_delete check_dynamic_pv matches_somewhere matches_here try_acquire contains_string
gets_lock = refl

Reach-IsExclusive_example : IsExclusive one_runs
Reach-IsExclusive_example =
    Reach-IsExclusive idle refl refl
      (next here (enter dynamic_id some_secrets one_runs.service gets_lock))

-- A provider whose calls succeed, but for the unmount.
abbrev pub example_provider : Provider
example_provider = record {
  create_target = λ target. pure tt;
  jfs_mount = λ id target secrets context options.
      pure (record { mount_path = lit "/jfs/pvc-1"; setting = example_setting });
  jfs_unmount = λ id target. fail timeout;
  jfs_delete_vol = λ id sub_path secrets ctx options. pure tt;
  create_vol = λ jfs id sub_path. pure (lit "/jfs/pvc-1/sub");
  bind_target = λ jfs source target. pure tt;
  set_quota = λ secrets setting path capacity. pure tt;
  settings = λ id secrets context options. pure example_setting;
  get_sub_path = λ id. pure [];
}

abbrev pub publish_request : PublishRequest
publish_request = record {
  volume_id = lit "pvc-1";
  target_path = lit "/target";
  capability = some writer;
  read_only = false;
  volume_context = [];
  secrets = [];
}

published :
    (node_publish_volume example_provider
      (λ s. none)
      (λ setting n. n)
      publish_request
      empty_world
      []).0
    ≡ ok tt
unfolding node_publish_volume publish_supported is_valid_volume_capabilities all has_support
    or_status mount_and_bind or_counted set_quota lookup
published = refl

node_publish_volume-IsBound_example :
    (is_empty publish_request.target_path ≡ false)
    × ((cap : VolumeCapability) × (publish_request.capability ≡ some cap)
        × (example_provider.create_target publish_request.target_path empty_world [] ≡ (
          ok tt,
          (example_provider.create_target publish_request.target_path empty_world []).1,
        ))
        × IsBound example_provider publish_request cap empty_world
            (example_provider.create_target publish_request.target_path empty_world []).1)
node_publish_volume-IsBound_example =
    node_publish_volume-IsBound example_provider (λ s. none) (λ setting n. n) publish_request
      empty_world [] published

abbrev small_disk : Statfs
small_disk = record { bsize = 4096; blocks = 100; bfree = 40; files = 1000; ffree = 900 }

-- A host where every path is a mount point of the small disk.
abbrev mounted_world : Env
mounted_world = record empty_world {
  path_exists_reply = λ _ _. ok true;
  is_not_mount_point_reply = λ _ _. ok false;
  statfs_reply = λ _ _. ok small_disk;
}

small_disk-Fits : Fits small_disk
small_disk-Fits = record {
  size = omega arith;
  free = omega arith;
  free_files = omega arith;
  files = omega arith;
}

stats-Adds_example :
    (bytes : VolumeUsage) × (inodes : VolumeUsage) × ((node_get_volume_stats
        (lit "pvc-1")
        (lit "/target")
        mounted_world
        []).0
      ≡ ok (bytes, inodes))
    × Adds small_disk bytes inodes
stats-Adds_example =
    stats-Adds mounted_world [] (lit "pvc-1") (lit "/target") small_disk refl refl refl refl refl
      small_disk-Fits

abbrev expand_request : ExpandRequest
expand_request = record {
  volume_id = lit "pvc-1";
  capacity_range = some (record { required_bytes = 20; limit_bytes = 30 });
  capability = some writer;
  secrets = [];
}

expands : (controller_expand_volume example_provider expand_request empty_world []).0 ≡ ok 20
unfolding controller_expand_volume expand_within set_capacity or_status
expands = refl

controller_expand_volume-Expanded_example :
    Expanded example_provider expand_request 20 empty_world []
controller_expand_volume-Expanded_example =
    controller_expand_volume-Expanded example_provider expand_request 20 empty_world [] expands
