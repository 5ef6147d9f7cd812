-- ===== src/Config/Parsing.antt =====
-- ParseSetting of pkg/config/setting.go: the settings of a volume, from its secrets, its context
-- and its mount options.
use juicedata_juicefs_csi_dr.Prelude.{
  Bool, true, not, Option, none, some, List, [], ◌∷◌, ◌++◌, map, Str, lit, str_eq, contains, split,
  trim_space, is_empty, get_str, lookup, GoMap, keep, if◌then◌else◌,
}
use juicedata_juicefs_csi_dr.Kube.{
  Pv, Pvc, Result, ok, err, diverged, other, status, invalid_argument,
}
use juicedata_juicefs_csi_dr.Juicefs.Settings.{
  JfsSetting, empty_setting, CacheEmptyDir, CachePvc, CacheInlineVolume,
}
use juicedata_juicefs_csi_dr.Config.Attr.{Globals, Library, gen_pod_attr_with_cfg, ◌>>=◌}
use juicedata_juicefs_csi_dr.Config.Cache.{
  cache_pvcs, medium_and_limit, inline_volumes, cache_options,
}

-- A text is set where it is not empty.
abbrev set_text : Str → (Str → JfsSetting) → JfsSetting → JfsSetting
set_text v f setting = if is_empty v then setting else f v

unfoldable pub parse_cache_pvcs : GoMap Str → JfsSetting → JfsSetting
unfolding cache_pvcs split trim_space
parse_cache_pvcs vol_ctx setting =
    set_text (get_str (lit "juicefs/mount-cache-pvc") vol_ctx)
      (λ v. record setting { cache_pvcs = cache_pvcs 0 (split (trim_space v) (lit ",")) }) setting

abbrev empty_dir : Library → Str × Str → Result CacheEmptyDir
empty_dir lib (medium, limit) =
    let dir : CacheEmptyDir = record {
      medium = medium;
      size_limit = limit;
      path = lit "/var/jfsCache-emptyDir";
    } in
    if is_empty limit
    then ok dir
    else elim (lib.parse_quantity limit) [ none ↦ err (other "quantity") | some q ↦ ok dir ]

unfoldable pub parse_empty_dir : Library → GoMap Str → JfsSetting → Result JfsSetting
unfolding lookup medium_and_limit split trim_space
parse_empty_dir lib vol_ctx setting = elim (lookup (lit "juicefs/mount-cache-emptydir") vol_ctx) [
  | none ↦ ok setting
  | some v ↦ do
    dir ← empty_dir lib (medium_and_limit (split (trim_space v) (lit ":")))
    ok (record setting { cache_empty_dir = some dir })
]

unfoldable pub parse_inline_volumes : Library → GoMap Str → JfsSetting → Result JfsSetting
unfolding lookup inline_volumes
parse_inline_volumes lib vol_ctx setting =
    elim (lookup (lit "juicefs/mount-cache-inline-volume") vol_ctx) [
      | none ↦ ok setting
      | some v ↦ elim (lib.inline_volumes v) [
        | ok volumes ↦ ok (record setting { cache_inline_volumes = inline_volumes 0 volumes })
        | err e ↦ err (other "parse cache inline volume error")
        | diverged ↦ diverged
      ]
    ]

abbrev empty_dir_path : Option CacheEmptyDir → List Str
empty_dir_path none = []
empty_dir_path (some dir) = dir.path ∷ []

-- The cache directories of the mount pod, in the order in which they were parsed.
unfoldable pub cache_paths : JfsSetting → List Str
cache_paths setting =
    map (λ (c : CachePvc). c.path) setting.cache_pvcs
    ++ (empty_dir_path setting.cache_empty_dir
        ++ map (λ (v : CacheInlineVolume). v.path) setting.cache_inline_volumes)

unfoldable pub parse_cache_dirs : JfsSetting → JfsSetting
unfolding cache_options cache_paths
parse_cache_dirs setting =
    let cache = cache_options (cache_paths setting) setting.options in
    record setting { options = cache.options; cache_dirs = cache.cache_dirs }

-- The default is the scheme of Redis.
unfoldable pub source_of : Str → Str
unfolding contains
source_of url = if contains url (lit "://") then url else lit "redis://" ++ url

unfoldable pub parse_source : GoMap Str → JfsSetting → JfsSetting
unfolding source_of lookup
parse_source secrets setting = elim (lookup (lit "metaurl") secrets) [
  | none ↦ record setting { source = setting.name }
  | some url ↦ record setting { meta_url = url; is_ce = true; source = source_of url }
]

unfoldable pub parse_keys : GoMap Str → JfsSetting → JfsSetting
parse_keys secrets setting =
    let first =
      set_text (get_str (lit "secretkey") secrets) (λ v. record setting { secret_key = v })
        setting in
    set_text (get_str (lit "secretkey2") secrets) (λ v. record first { secret_key2 = v }) first

-- The map that the text under the key holds.
unfoldable pub map_under : Library → Str → GoMap Str → Result (GoMap Str)
map_under lib key secrets =
    if is_empty (get_str key secrets) then ok [] else lib.string_map (get_str key secrets)

unfoldable pub parse_maps : Library → GoMap Str → JfsSetting → Result JfsSetting
unfolding map_under
parse_maps lib secrets setting = do
  configs ← map_under lib (lit "configs") secrets
  envs ← map_under lib (lit "envs") secrets
  ok (record setting { configs = configs; envs = envs })

unfoldable pub parse_delay : Library → Str → JfsSetting → Result JfsSetting
parse_delay lib delay setting =
    if is_empty delay
    then ok setting
    else if not (lib.parse_duration delay)
    then err (other "can't parse delay time")
    else ok (record setting { deleted_delay = delay })

unfoldable pub host_paths : Str → List Str
unfolding split trim_space keep
host_paths v = keep (λ p. not (is_empty p)) (map trim_space (split v (lit ",")))

unfoldable pub parse_context : Library → GoMap Str → JfsSetting → Result JfsSetting
unfolding parse_delay host_paths
parse_context lib vol_ctx setting =
    let with_path =
      set_text (get_str (lit "subPath") vol_ctx) (λ v. record setting { sub_path = v }) setting in
    let cleaned =
      if str_eq (get_str (lit "juicefs/clean-cache") vol_ctx) (lit "true")
      then record with_path { clean_cache = true }
      else with_path in
    do
      delayed ← parse_delay lib (get_str (lit "juicefs/mount-delete-delay") vol_ctx) cleaned
      ok (
          set_text (get_str (lit "juicefs/host-path") vol_ctx)
            (λ v. record delayed { host_path = host_paths v }) delayed)

abbrev with_context :
    Option (GoMap Str)
    → (GoMap Str → JfsSetting → Result JfsSetting)
    → JfsSetting
    → Result JfsSetting
with_context none f setting = ok setting
with_context (some vol_ctx) f setting = f vol_ctx setting

unfoldable pub parse_cache : Library → GoMap Str → JfsSetting → Result JfsSetting
unfolding parse_cache_pvcs parse_empty_dir parse_inline_volumes
parse_cache lib vol_ctx setting =
    parse_empty_dir lib vol_ctx (parse_cache_pvcs vol_ctx setting) >>= λ with_dir.
    parse_inline_volumes lib vol_ctx with_dir

-- The fields that are set before anything is parsed. The secrets are texts, so that reading them
-- leaves the options, which are a list.
unfoldable pub start :
    Globals → GoMap Str → List Str → Option Pv → Option Pvc → JfsSetting → JfsSetting
start g secrets options pv pvc setting = record setting {
  options = options;
  name = get_str (lit "name") secrets;
  storage = get_str (lit "storage") secrets;
  client_conf_path = g.client_conf_path;
  envs = [];
  configs = [];
  cache_dirs = [];
  cache_pvcs = [];
  pv = pv;
  pvc = pvc;
}

unfoldable pub parse_secrets :
    Globals → Library → GoMap Str → Option (GoMap Str) → Bool → JfsSetting → Result JfsSetting
unfolding parse_cache parse_cache_dirs parse_source parse_keys parse_maps parse_context
parse_secrets g lib secrets vol_ctx use_pod started = do
  cached ← with_context vol_ctx (parse_cache lib) started
  let sourced = parse_source secrets (record (parse_cache_dirs cached) { use_pod = use_pod })
  mapped ← parse_maps lib secrets (parse_keys secrets sourced)
  contextual ← with_context vol_ctx (parse_context lib) mapped
  elim (gen_pod_attr_with_cfg g lib contextual vol_ctx) [
    | ok setting ↦ ok setting
    | err e ↦ err (other "GenPodAttrWithCfg error")
    | diverged ↦ diverged
  ]

unfoldable pub parse_setting :
    Globals
    → Library
    → Option (GoMap Str)
    → Option (GoMap Str)
    → List Str
    → Bool
    → Option Pv
    → Option Pvc
    → Result JfsSetting
unfolding start parse_secrets
parse_setting g lib none vol_ctx options use_pod pv pvc =
    ok (record empty_setting { options = options })
parse_setting g lib (some secrets) vol_ctx options use_pod pv pvc = do
  read ← lib.unmarshal_setting secrets (record empty_setting { options = options })
  if is_empty (get_str (lit "name") secrets)
      then err (status invalid_argument "Empty name")
      else parse_secrets g lib secrets vol_ctx use_pod (start g secrets options pv pvc read)
