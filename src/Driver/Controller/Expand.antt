-- ===== src/Driver/Controller/Expand.antt =====
-- ControllerExpandVolume of pkg/driver/controller.go.
use juicedata_juicefs_csi_dr.Prelude.{
  ℕ, ◌&&◌, Option, none, some, List, [], ◌∷◌, Str, lit, GoMap, split, str_eq, ltb, path_join,
  is_empty, if◌then◌else◌,
}
use juicedata_juicefs_csi_dr.Kube.{
  Err, ok, err, diverged, status, invalid_argument, internal, M, ◌>>=◌, ◌>>◌, pure, fail, lift,
  attempt,
}
use juicedata_juicefs_csi_dr.Driver.Capability.{VolumeCapability, mount_flags}
use juicedata_juicefs_csi_dr.Driver.Provider.{Provider}

pub record CapacityRange : Type 0 where
  pub required_bytes : ℕ
  pub limit_bytes : ℕ

pub record ExpandRequest : Type 0 where
  pub volume_id : Str
  pub capacity_range : Option CapacityRange
  pub capability : Option VolumeCapability
  pub secrets : GoMap Str

-- Errors of a call, with the status that the service makes of them.
unfoldable pub or_status {ℓ} : {A : Type ℓ} → Err → M A → M A
or_status e m = do
  r ← attempt m
  elim r [ ok a ↦ pure a | err e' ↦ fail e | diverged ↦ lift diverged ]

abbrev pub subdir_of_pair : Str → List Str → Str
subdir_of_pair subdir (k ∷ v ∷ []) =
    if str_eq k (lit "subdir") then path_join (lit "/" ∷ v ∷ []) else subdir
subdir_of_pair subdir _ = subdir

-- The last option `subdir=...` of the mount options.
unfoldable pub subdir_of : Str → List Str → Str
subdir_of subdir [] = subdir
subdir_of subdir (o ∷ options) = subdir_of (subdir_of_pair subdir (split o (lit "="))) options

unfoldable pub set_capacity : Provider → ExpandRequest → CapacityRange → VolumeCapability → M ℕ
set_capacity p req range cap = do
  quota_path ← or_status (status internal "get quotaPath error") (p.get_sub_path req.volume_id)
  settings ←
      or_status (status internal "get settings")
        (p.settings req.volume_id req.secrets [] (mount_flags cap))
  or_status (status internal "set quota") (
      p.set_quota req.secrets settings (path_join (subdir_of [] settings.options ∷ quota_path ∷ []))
        range.required_bytes)
  pure range.required_bytes

unfoldable pub expand_within : Provider → ExpandRequest → CapacityRange → M ℕ
expand_within p req range =
    if ltb 0 range.limit_bytes && ltb range.limit_bytes range.required_bytes
    then fail (status invalid_argument "volume size exceeds the limit specified")
    else elim req.capability [
      | none ↦ fail (status invalid_argument "Volume capability not provided")
      | some cap ↦ set_capacity p req range cap
    ]

-- The reply is the new size.
unfoldable pub controller_expand_volume : Provider → ExpandRequest → M ℕ
controller_expand_volume p req =
    if is_empty req.volume_id
    then fail (status invalid_argument "Volume ID not provided")
    else elim req.capacity_range [
      | none ↦ fail (status invalid_argument "Capacity range not provided")
      | some range ↦ expand_within p req range
    ]
