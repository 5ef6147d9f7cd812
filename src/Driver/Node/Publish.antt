-- ===== src/Driver/Node/Publish.antt =====
-- NodePublishVolume and NodeUnpublishVolume of pkg/driver/node.go.
use juicedata_juicefs_csi_dr.Prelude.{
  ℕ, Bool, not, ◌||◌, Option, none, some, List, [], ◌∷◌, ◌++◌, Str, lit, String, GoMap, lookup,
  get_str, split, path_join, is_empty, if◌then◌else◌,
}
use juicedata_juicefs_csi_dr.Kube.{
  Err, ok, err, diverged, status, invalid_argument, internal, M, ◌>>=◌, ◌>>◌, pure, fail, lift,
  attempt, note, incremented,
}
use juicedata_juicefs_csi_dr.Juicefs.Settings.{JfsSetting}
use juicedata_juicefs_csi_dr.Driver.Capability.{
  VolumeCapability, multi_node_reader_only, mode_eq, mount_flags, is_valid_volume_capabilities,
}
use juicedata_juicefs_csi_dr.Driver.Provider.{Provider, Jfs}
use juicedata_juicefs_csi_dr.Driver.Controller.Expand.{or_status, subdir_of}

pub record PublishRequest : Type 0 where
  pub volume_id : Str
  pub target_path : Str
  pub capability : Option VolumeCapability
  pub read_only : Bool
  pub volume_context : GoMap Str
  pub secrets : GoMap Str

-- An error of the provider counts in the metrics.
unfoldable pub or_counted {ℓ} : {A : Type ℓ} → String → Err → M A → M A
or_counted counter e m = do
  r ← attempt m
  elim r [
    | ok a ↦ pure a
    | err e' ↦ do note (incremented counter); fail e
    | diverged ↦ lift diverged
  ]

unfoldable pub read_only_option : PublishRequest → VolumeCapability → List Str
read_only_option req cap =
    if req.read_only || mode_eq cap.access_mode multi_node_reader_only then lit "ro" ∷ [] else []

unfoldable pub mount_options : PublishRequest → VolumeCapability → List Str
mount_options req cap = elim (lookup (lit "mountOptions") req.volume_context) [
  | none ↦ read_only_option req cap ++ mount_flags cap
  | some opts ↦ split opts (lit ",") ++ (read_only_option req cap ++ mount_flags cap)
]

-- The quota is set where the volume has a capacity; an error is logged only. `parse_int` is
-- strconv.ParseInt, and `capacity_of` the capacity of the settings' volume in its place.
unfoldable pub set_quota :
    Provider → (Str → Option ℕ) → (JfsSetting → ℕ → ℕ) → PublishRequest → Jfs → M (Unit {0})
set_quota p parse_int capacity_of req jfs = elim (lookup (lit "capacity") req.volume_context) [
  | none ↦ pure tt
  | some cap ↦ elim (parse_int cap) [
    | none ↦ fail (status internal "invalid capacity")
    | some capacity ↦ do
      attempt (
          p.set_quota req.secrets jfs.setting
            (path_join (subdir_of [] jfs.setting.options ∷ jfs.setting.sub_path ∷ []))
            (capacity_of jfs.setting capacity))
      pure tt
  ]
]

abbrev pub volume_errors : String
volume_errors = "volume_errors"

unfoldable pub mount_and_bind : Provider → PublishRequest → VolumeCapability → M Jfs
mount_and_bind p req cap = do
  jfs ← or_counted volume_errors (status internal "Could not mount juicefs") (
      p.jfs_mount req.volume_id req.target_path req.secrets req.volume_context
        (mount_options req cap))
  bind_source ←
      or_counted volume_errors (status internal "Could not create volume")
        (p.create_vol jfs req.volume_id (get_str (lit "subPath") req.volume_context))
  or_counted volume_errors (status internal "Could not bind")
      (p.bind_target jfs bind_source req.target_path)
  pure jfs

unfoldable pub publish_supported :
    Provider
    → (Str → Option ℕ)
    → (JfsSetting → ℕ → ℕ)
    → PublishRequest
    → VolumeCapability
    → M (Unit {0})
publish_supported p parse_int capacity_of req cap =
    if not (is_valid_volume_capabilities (cap ∷ []))
    then fail (status invalid_argument "Volume capability not supported")
    else do
      or_status (status internal "Could not create dir") (p.create_target req.target_path)
      jfs ← mount_and_bind p req cap
      set_quota p parse_int capacity_of req jfs

unfoldable pub node_publish_volume :
    Provider → (Str → Option ℕ) → (JfsSetting → ℕ → ℕ) → PublishRequest → M (Unit {0})
node_publish_volume p parse_int capacity_of req =
    if is_empty req.target_path
    then fail (status invalid_argument "Target path not provided")
    else elim req.capability [
      | none ↦ fail (status invalid_argument "Volume capability not provided")
      | some cap ↦ publish_supported p parse_int capacity_of req cap
    ]

unfoldable pub node_unpublish_volume : Provider → Str → Str → M (Unit {0})
node_unpublish_volume p volume_id target =
    if is_empty target
    then fail (status invalid_argument "Target path not provided")
    else or_counted "volume_del_errors" (status internal "Could not unmount")
        (p.jfs_unmount volume_id target)
