-- ===== src/Driver/Capability.antt =====
-- The volume capabilities that the driver supports: isValidVolumeCapabilities of
-- pkg/driver/controller.go.
use juicedata_juicefs_csi_dr.Prelude.{
  ℕ, Bool, true, false, List, [], ◌∷◌, Str, any, all, ◌==◌, if◌then◌else◌,
}

pub data AccessMode : Type 0 where
  unknown single_node_writer single_node_reader_only multi_node_reader_only : AccessMode
  multi_node_single_writer multi_node_multi_writer : AccessMode

-- The number of the mode in the protocol.
unfoldable pub mode_number : AccessMode → ℕ
mode_number unknown = 0
mode_number single_node_writer = 1
mode_number single_node_reader_only = 2
mode_number multi_node_reader_only = 3
mode_number multi_node_single_writer = 4
mode_number multi_node_multi_writer = 5

unfoldable pub mode_eq : AccessMode → AccessMode → Bool
unfolding mode_number
mode_eq a b = mode_number a == mode_number b

-- A mount has its mount flags.
pub data AccessType : Type 0 where
  block unset : AccessType
  mount : List Str → AccessType

pub record VolumeCapability : Type 0 where
  pub access_type : AccessType
  pub access_mode : AccessMode

abbrev pub volume_caps : List AccessMode
volume_caps = single_node_writer ∷ multi_node_multi_writer ∷ multi_node_reader_only ∷ []

unfoldable pub is_mount : AccessType → Bool
is_mount block = false
is_mount (mount flags) = true
is_mount unset = false

unfoldable pub has_support : VolumeCapability → Bool
unfolding is_mount mode_eq any
has_support cap =
    if is_mount cap.access_type then any (λ c. mode_eq c cap.access_mode) volume_caps else false

unfoldable pub is_valid_volume_capabilities : List VolumeCapability → Bool
is_valid_volume_capabilities caps = all has_support caps

unfoldable pub mount_flags : VolumeCapability → List Str
mount_flags cap = elim cap.access_type [ mount flags ↦ flags | block ↦ [] | unset ↦ [] ]
