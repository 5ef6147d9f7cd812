-- ===== src/Driver/Controller/Create.antt =====
-- CreateVolume and ValidateVolumeCapabilities of pkg/driver/controller.go.
use juicedata_juicefs_csi_dr.Prelude.{
  ℕ, Bool, false, not, Option, none, some, List, Str, lit, GoMap, lookup, insert, any, ltb,
  format_int, is_empty, is_none, if◌then◌else◌,
}
use juicedata_juicefs_csi_dr.Kube.{
  Result, ok, err, status, invalid_argument, already_exists, absent,
}
use juicedata_juicefs_csi_dr.Driver.Capability.{
  VolumeCapability, multi_node_reader_only, mode_eq, is_valid_volume_capabilities,
}

abbrev pub Volumes : Type 0
Volumes = GoMap ℕ

-- `none` are the capabilities of a request that has none.
pub record CreateRequest : Type 0 where
  pub name : Str
  pub capabilities : Option (List VolumeCapability)
  pub required_bytes : ℕ
  pub parameters : GoMap Str

pub record Volume : Type 0 where
  pub volume_id : Str
  pub capacity_bytes : ℕ
  pub volume_context : GoMap Str

unfoldable pub is_read_only : VolumeCapability → Bool
is_read_only cap = mode_eq cap.access_mode multi_node_reader_only

-- The recorded capacity is below the one that is asked for.
unfoldable pub is_too_small : Volumes → Str → ℕ → Bool
is_too_small vols name required = elim (lookup name vols) [
  | none ↦ false
  | some capacity ↦ ltb capacity required
]

unfoldable pub created : CreateRequest → Volume
created req = record {
  volume_id = req.name;
  capacity_bytes = req.required_bytes;
  volume_context =
      insert (lit "capacity") (format_int req.required_bytes)
        (insert (lit "subPath") req.name req.parameters);
}

-- From the look at `d.vols` on.
unfoldable pub record_volume :
    Volumes → CreateRequest → List VolumeCapability → Result Volume × Volumes
record_volume vols req caps =
    if is_too_small vols req.name req.required_bytes
    then (err (status already_exists "capacity"), vols)
    else (
      if any is_read_only caps
          then err (status invalid_argument "read-only mode cannot be used")
          else ok (created req),
      insert req.name req.required_bytes vols,
    )

unfoldable pub create_supported :
    Volumes → CreateRequest → Option (List VolumeCapability) → Result Volume × Volumes
create_supported vols req none =
    (err (status invalid_argument "Volume Capabilities cannot be empty"), vols)
create_supported vols req (some caps) =
    if not (is_valid_volume_capabilities caps)
    then (err (status invalid_argument "Volume Capabilities not fully supported"), vols)
    else record_volume vols req caps

unfoldable pub create_volume : Volumes → CreateRequest → Result Volume × Volumes
create_volume vols req =
    if is_empty req.name
    then (err (status invalid_argument "Volume Name cannot be empty"), vols)
    else create_supported vols req req.capabilities

-- `ok true`: the capabilities are confirmed.
unfoldable pub validate_volume_capabilities : Volumes → Str → List VolumeCapability → Result Bool
validate_volume_capabilities vols volume_id caps =
    if is_empty volume_id
    then err (status invalid_argument "Volume ID not provided")
    else if is_empty caps
    then err (status invalid_argument "Volume capabilities not provided")
    else if is_none (lookup volume_id vols)
    then err (status absent "Could not get volume by ID")
    else ok (is_valid_volume_capabilities caps)
