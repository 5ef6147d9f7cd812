-- ===== src/Juicefs/Provider/Versions.antt =====
-- The order of client versions in pkg/juicefs/juicefs.go.
use juicedata_juicefs_csi_dr.Prelude.{◌≡◌, ◌⊎◌, true, false, arith}
use juicedata_juicefs_csi_dr.Juicefs.Provider.Version.{ClientVersion, approximate, less_than}

-- Of two versions, one is less than the other or they are approximately the same; and only one of
-- the three holds.
pub less_than-trichotomy :
    (v other : ClientVersion)
    → ((less_than v other ≡ true) × (less_than other v ≡ false) × (approximate v other ≡ false))
      ⊎ ((less_than v other ≡ false) × (less_than other v ≡ true) × (approximate v other ≡ false))
      ⊎ ((less_than v other ≡ false) × (less_than other v ≡ false) × (approximate v other ≡ true))
unfolding less_than approximate
less_than-trichotomy v other = ground arith

pub less_than_trans :
    (u v w : ClientVersion) → less_than u v ≡ true → less_than v w ≡ true → less_than u w ≡ true
unfolding less_than
less_than_trans u v w h k = ground arith
