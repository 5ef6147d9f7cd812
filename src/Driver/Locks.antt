-- ===== src/Driver/Locks.antt =====
-- VolumeLocks of pkg/util/volume.go, as the set of the locked volume ids. The mutex makes each call
-- one step.
use juicedata_juicefs_csi_dr.Prelude.{
  Bool, true, false, not, List, ◌∷◌, Str, contains_string, keep, str_eq, if◌then◌else◌,
}

abbrev pub VolumeLocks : Type 0
VolumeLocks = List Str

unfoldable pub try_acquire : VolumeLocks → Str → Bool × VolumeLocks
try_acquire locks volume_id =
    if contains_string locks volume_id then (false, locks) else (true, volume_id ∷ locks)

unfoldable pub release : VolumeLocks → Str → VolumeLocks
release locks volume_id = keep (λ x. not (str_eq x volume_id)) locks
