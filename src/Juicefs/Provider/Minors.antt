-- ===== src/Juicefs/Provider/Minors.antt =====
-- The devices that BindTarget of pkg/juicefs/juicefs.go compares.
use juicedata_juicefs_csi_dr.Prelude.{
  ℕ, ◌≡◌, refl, ap, inl, inr, true, Bool, Option, some, none, List, [], ◌∷◌, ◌++◌, Str, str_eq,
  arith, Bool-cases, any,
}
use juicedata_juicefs_csi_dr.Kube.{MountInfo}
use juicedata_juicefs_csi_dr.Juicefs.Provider.Files.{minor_of, last_minor, target_minor}

abbrev pub mounted_at : Str → MountInfo → Bool
mounted_at path mi = str_eq mi.mount_point path

last_minor-append :
    (d : ℕ) (mis : List MountInfo) (mi : MountInfo) → last_minor d (mis ++ mi ∷ []) ≡ mi.minor
unfolding last_minor
last_minor-append d [] mi = refl
last_minor-append d (m ∷ mis) mi = last_minor-append m.minor mis mi

minor_of-found :
    (path : Str) (found : Option ℕ) (n : ℕ) (mis : List MountInfo)
    → found ≡ some n
    → (m : ℕ) × (minor_of path found mis ≡ some m)
unfolding minor_of
minor_of-found path found n [] h = (n, h)
minor_of-found path found n (mi ∷ mis) h = elim (Bool-cases (str_eq mi.mount_point path)) [
  | inl hit ↦ rw hit (minor_of-found path (some mi.minor) mi.minor mis refl)
  | inr miss ↦ rw miss (minor_of-found path found n mis h)
]

minor_of-any :
    (path : Str) (found : Option ℕ) (mis : List MountInfo)
    → any (mounted_at path) mis ≡ true
    → (m : ℕ) × (minor_of path found mis ≡ some m)
unfolding minor_of any
minor_of-any path found [] h = absurd (ground arith)
minor_of-any path found (mi ∷ mis) h = elim (Bool-cases (str_eq mi.mount_point path)) [
  | inl hit ↦ rw hit (minor_of-found path (some mi.minor) mi.minor mis refl)
  | inr miss ↦ rw miss (minor_of-any path found mis (rw miss at h))
]

-- If the target is mounted at all, the device that BindTarget takes for the target's is that of
-- the last entry of the mount table, wherever that one is mounted.
pub target_minor-last :
    (target : Str) (mis : List MountInfo) (mi : MountInfo)
    → any (mounted_at target) (mis ++ mi ∷ []) ≡ true
    → target_minor target (mis ++ mi ∷ []) ≡ some mi.minor
unfolding target_minor
target_minor-last target mis mi h =
    let (m, found) = minor_of-any target none (mis ++ mi ∷ []) h in
    rw (found, target_minor) (ap some (last_minor-append m mis mi))
