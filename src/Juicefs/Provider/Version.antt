-- ===== src/Juicefs/Provider/Version.antt =====
-- clientVersion of pkg/juicefs/juicefs.go: the order of client versions.
use juicedata_juicefs_csi_dr.Prelude.{ℕ, Bool, true, false, ◌&&◌, Str, ltb, ◌==◌, if◌then◌else◌}

pub record ClientVersion : Type 0 where
  pub major : ℕ
  pub minor : ℕ
  pub patch : ℕ
  pub tag : Str

unfoldable pub approximate : ClientVersion → ClientVersion → Bool
approximate v other = v.major == other.major && (v.minor == other.minor && v.patch == other.patch)

unfoldable pub less_than : ClientVersion → ClientVersion → Bool
less_than v other =
    if ltb v.major other.major
    then true
    else if ltb other.major v.major
    then false
    else if ltb v.minor other.minor
    then true
    else if ltb other.minor v.minor
    then false
    else ltb v.patch other.patch
