-- ===== src/Util/MountTable.antt =====
-- The table of mounts in pkg/util/util.go: parseMountInfo on the content of the file, and
-- searchMountPoints, which finds the other mounts of a device.
use mathlib.Core.List.{reverse}
use juicedata_juicefs_csi_dr.Prelude.{
  Bool, true, false, not, ◌&&◌, ◌||◌, Option, none, some, List, [], ◌∷◌, Str, ℤ, lit, str_eq,
  has_prefix, split, trim_prefix, atoi, int_eq, is_empty, path_join, clean_components,
  if◌then◌else◌,
}
use juicedata_juicefs_csi_dr.Kube.{Result, ok, err, diverged, other}
use juicedata_juicefs_csi_dr.Util.Names.{fields}

-- `mountInfo`, without the fields that are only parsed.
pub record Mount : Type 0 where
  pub id : ℤ
  pub major_minor : Str
  pub root : Str
  pub mount_point : Str
  pub fs_type : Str

-- The fields behind the first "-".
unfoldable pub behind_dash : List Str → List Str
unfolding str_eq
behind_dash [] = []
behind_dash (f ∷ fs) = let rest = behind_dash fs in if str_eq f (lit "-") then fs else rest

abbrev fs_of : ℤ → Str → Str → Str → List Str → Result Mount
fs_of id major_minor root mount_point (fs_type ∷ source ∷ super ∷ rest) = ok (record {
  id = id;
  major_minor = major_minor;
  root = root;
  mount_point = mount_point;
  fs_type = fs_type;
})
fs_of id major_minor root mount_point _ = err (other "expect 3 fields")

abbrev with_ids : Option ℤ → Option ℤ → (ℤ → Result Mount) → Result Mount
with_ids (some id) (some parent) f = f id
with_ids _ _ f = err (other "invalid syntax")

-- A line has ten fields at least.
unfoldable pub parse_fields : List Str → Result Mount
unfolding behind_dash atoi
parse_fields (id ∷ parent ∷ major_minor ∷ root ∷ mount_point ∷ options ∷ a ∷ b ∷ c ∷ d ∷ rest) =
    with_ids (atoi id) (atoi parent)
      (λ n. fs_of n major_minor root mount_point (behind_dash (a ∷ b ∷ c ∷ d ∷ rest)))
parse_fields _ = err (other "wrong number of fields")

abbrev cons_mount : Result Mount → Result (List Mount) → Result (List Mount)
cons_mount (ok m) (ok ms) = ok (m ∷ ms)
cons_mount (ok m) r = r
cons_mount (err e) r = err e
cons_mount diverged r = diverged

unfoldable pub parse_lines : List Str → Result (List Mount)
unfolding parse_fields fields
parse_lines [] = ok []
parse_lines (line ∷ lines) =
    let rest = parse_lines lines in
    if is_empty line then rest else cons_mount (parse_fields (fields line)) rest

unfoldable pub parse_mounts : Str → Result (List Mount)
unfolding parse_lines split
parse_mounts content = parse_lines (split content (lit "\n"))

-- The components of a path that filepath.Clean leaves.
unfoldable pub components : Str → List Str
unfolding clean_components has_prefix split
components path = reverse (clean_components (has_prefix path (lit "/")) (split path (lit "/")) [])

-- What is left of the path behind the base.
unfoldable pub strip_base : List Str → List Str → Option (List Str)
unfolding str_eq
strip_base [] path = some path
strip_base (b ∷ base) [] = none
strip_base (b ∷ base) (c ∷ path) =
    let rest = strip_base base path in if str_eq b c then rest else none

abbrev no_backstep : Option (List Str) → Bool
no_backstep none = false
no_backstep (some []) = true
no_backstep (some (c ∷ path)) = not (str_eq c (lit ".."))

abbrev same_flag : Bool → Bool → Bool
same_flag true b = b
same_flag false b = not b

-- filepath.Rel fails if one path alone is absolute; it begins with ".." where the base is left.
unfoldable pub path_within_base : Str → Str → Bool
unfolding components strip_base has_prefix
path_within_base full_path base_path =
    same_flag (has_prefix full_path (lit "/")) (has_prefix base_path (lit "/"))
    && no_backstep (strip_base (components base_path) (components full_path))

unfoldable pub holds : Str → Mount → Bool
unfolding path_within_base str_eq
holds host_source m = str_eq host_source m.mount_point || path_within_base host_source m.mount_point

-- The last entry that holds the path.
unfoldable pub last_holding : Str → List Mount → Option Mount
last_holding host_source [] = none
last_holding host_source (m ∷ ms) = elim (last_holding host_source ms) [
  | some later ↦ some later
  | none ↦ if holds host_source m then some m else none
]

unfoldable pub is_ref : Mount → Mount → Bool
unfolding int_eq str_eq
is_ref source m =
    not (int_eq m.id source.id)
    && (str_eq m.major_minor source.major_minor && str_eq m.fs_type source.fs_type)

-- The mount points of the other entries of the device.
unfoldable pub refs_of : Mount → List Mount → List Str
unfolding is_ref
refs_of source [] = []
refs_of source (m ∷ ms) =
    let rest = refs_of source ms in if is_ref source m then m.mount_point ∷ rest else rest

unfoldable pub root_path : Str → Mount → Str
unfolding trim_prefix path_join
root_path host_source m = path_join (m.root ∷ trim_prefix host_source m.mount_point ∷ [])

unfoldable pub search_mount_points : Str → List Mount → Result (List Str)
unfolding root_path
search_mount_points host_source mis = elim (last_holding host_source mis) [
  | none ↦ err (other "failed to get root path")
  | some m ↦
      if is_empty (root_path host_source m) || is_empty m.major_minor
      then err (other "failed to get root path")
      else ok (refs_of m mis)
]
