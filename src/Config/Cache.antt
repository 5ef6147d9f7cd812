-- ===== src/Config/Cache.antt =====
-- The cache directories of ParseSetting of pkg/config/setting.go.
pub mod Options
use juicedata_juicefs_csi_dr.Prelude.{
  ℕ, suc, ◌+◌, not, Option, none, some, List, [], ◌∷◌, ◌++◌, Str, lit, str_eq, has_prefix, split,
  join, trim_space, format_int, is_empty, take, drop, length, keep, if◌then◌else◌,
}
use juicedata_juicefs_csi_dr.Juicefs.Settings.{CachePvc, CacheInlineVolume}

-- An empty name takes up a number.
unfoldable pub cache_pvcs : ℕ → List Str → List CachePvc
unfolding format_int
cache_pvcs i [] = []
cache_pvcs i (pvc ∷ names) =
    let rest = cache_pvcs (suc i) names in
    if is_empty pvc
    then rest
    else record { pvc_name = pvc; path = lit "/var/jfsCache-" ++ format_int i } ∷ rest

-- The medium and the limit of `medium:limit`.
unfoldable pub medium_and_limit : List Str → Str × Str
unfolding trim_space
medium_and_limit (medium ∷ []) = (trim_space medium, [])
medium_and_limit (medium ∷ limit ∷ []) = (trim_space medium, trim_space limit)
medium_and_limit _ = ([], [])

unfoldable pub inline_volumes : ℕ → List Str → List CacheInlineVolume
unfolding format_int
inline_volumes i [] = []
inline_volumes i (csi ∷ volumes) =
    record { csi = csi; path = lit "/var/jfsCache-inlineVolume-" ++ format_int i }
    ∷ inline_volumes (suc i) volumes

abbrev value_of_pair : List Str → Option Str
value_of_pair (k ∷ v ∷ []) = some v
value_of_pair _ = none

unfoldable pub cache_dir_value : Str → Option Str
unfolding has_prefix split
cache_dir_value o =
    if has_prefix o (lit "cache-dir") then value_of_pair (split o (lit "=")) else none

abbrev pub first_of : Option Str → Option (ℕ × Str) → Option (ℕ × Str)
first_of (some v) later = some (0, v)
first_of none none = none
first_of none (some (i, v)) = some (suc i, v)

-- The first option `cache-dir...=value`: its position and its value.
unfoldable pub find_cache_dir : List Str → Option (ℕ × Str)
unfolding cache_dir_value
find_cache_dir [] = none
find_cache_dir (o ∷ options) = first_of (cache_dir_value o) (find_cache_dir options)

-- append(options[:i], options[i+1:]...)
unfoldable pub remove_at : ℕ → List Str → List Str
remove_at i options = take i options ++ drop (suc i) options

-- The array after `append(options[:i], xs...)`, which fits in and is written in place from the
-- position on.
unfoldable pub write_from : ℕ → List Str → List Str → List Str
write_from i xs array = take i array ++ (xs ++ drop (i + length xs) array)

-- What the slice of the old length sees of the array after options[i] was cut out.
unfoldable pub seen_after : ℕ → List Str → List Str
unfolding write_from
seen_after i options = write_from i (drop (suc i) options) options

pub record CacheOptions : Type 0 where
  pub options : List Str
  pub cache_dirs : List Str

-- `seen` are the options of the setting so far, which share the array of `options`.
unfoldable pub set_cache_dir : List Str → List Str → List Str → List Str → CacheOptions
unfolding join keep
set_cache_dir dirs cache_dirs options seen = record {
  options =
      if is_empty (join dirs (lit ":"))
      then seen
      else options ++ (lit "cache-dir=" ++ join dirs (lit ":")) ∷ [];
  cache_dirs =
      keep (λ d. not (str_eq d (lit "memory")))
        (if is_empty dirs then lit "/var/jfsCache" ∷ [] else cache_dirs);
}

unfoldable pub cache_options : List Str → List Str → CacheOptions
unfolding find_cache_dir set_cache_dir seen_after split trim_space
cache_options dirs options = elim (find_cache_dir options) [
  | none ↦ set_cache_dir dirs [] options options
  | some (i, value) ↦
      let cache_dirs = split (trim_space value) (lit ":") in
      set_cache_dir (dirs ++ cache_dirs) cache_dirs (remove_at i options) (seen_after i options)
]
