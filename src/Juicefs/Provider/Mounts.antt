-- ===== src/Juicefs/Provider/Mounts.antt =====
-- Settings, JfsMount, JfsCreateVol, JfsDeleteVol, MountFs, GetSubPath and GetJfsVolUUID of
-- pkg/juicefs/juicefs.go.
use juicedata_juicefs_csi_dr.Prelude.{
  Bool, false, not, ◌||◌, Option, none, some, List, [], ◌∷◌, Str, lit, has_prefix, drop, contains,
  get_str, get_or_else, insert, is_empty, path_join, ◌==◌, GoMap, if◌then◌else◌,
}
use juicedata_juicefs_csi_dr.Kube.{
  Pv, Pvc, ok, err, diverged, other, CommandOutput, M, ◌>>=◌, ◌>>◌, pure, fail, lift, attempt, ask,
  run, get_persistent_volume, get_persistent_volume_claim, cleanup_mount_point, value_at,
}
use juicedata_juicefs_csi_dr.Config.Attr.{Globals, Library}
use juicedata_juicefs_csi_dr.Config.Parsing.{parse_setting}
use juicedata_juicefs_csi_dr.Config.AppInfo.{Kubelet, parse_app_info}
use juicedata_juicefs_csi_dr.Juicefs.Settings.{JfsSetting, AppInfo}
use juicedata_juicefs_csi_dr.Juicefs.Provider.Files.{valid_target}
use juicedata_juicefs_csi_dr.Juicefs.Provider.Unmount.{get_unique_id}
use juicedata_juicefs_csi_dr.Juicefs.Provider.Options.{Sizes, valid_options}
use juicedata_juicefs_csi_dr.Juicefs.Provider.Commands.{auth_fs, ce_format, ce_cli_path}

-- MntInterface of pkg/juicefs/mount/interface.go, as far as the provider calls it here. JMount
-- changes the settings, and answers with them.
pub record Mounter : Type 0 where
  pub j_mount : Option AppInfo → JfsSetting → M JfsSetting
  pub j_create_volume : JfsSetting → M (Unit {0})
  pub j_delete_volume : JfsSetting → M (Unit {0})

-- The provider: its mounters, is there a client of the API server, the kubelet, the directory of
-- the kubelet that is mounted, and the libraries and variables that it parses settings by.
pub record Juicefs : Type 0 where
  pub pod_mount : Mounter
  pub process_mount : Mounter
  pub has_client : Bool
  pub kubelet : Option Kubelet
  pub kubelet_dir : Str
  pub globals : Globals
  pub library : Library
  pub sizes : Sizes

-- The text before the next quote on the line.
unfoldable pub until_quote : Str → Option Str
until_quote [] = none
until_quote (c ∷ s) =
    if c == b'"'
    then some []
    else if c == 10
    then none
    else elim (until_quote s) [ none ↦ none | some t ↦ some (c ∷ t) ]

abbrev or_later : Option Str → Option Str → Option Str
or_later none later = later
or_later (some id) later = some id

-- The id behind the first `"UUID": "` that a quote follows on its line.
unfoldable pub find_uuid : Str → Option Str
unfolding until_quote has_prefix
find_uuid [] = none
find_uuid (c ∷ s) =
    let later = find_uuid s in
    if has_prefix (c ∷ s) (lit "\"UUID\": \"")
    then or_later (until_quote (drop 9 (c ∷ s))) later
    else later

unfoldable pub uuid_of_output : CommandOutput → M Str
unfolding find_uuid contains
uuid_of_output out =
    if not out.failed
    then elim (find_uuid out.output) [ none ↦ fail (other "get uuid") | some id ↦ pure id ]
    else if contains out.output (lit "database is not formatted")
    then pure []
    else fail (other "juicefs status")

unfoldable pub get_jfs_vol_uuid : Str → M Str
get_jfs_vol_uuid name = do out ← run (ce_cli_path ∷ lit "status" ∷ name ∷ []); uuid_of_output out

-- A volume without a claim makes the function panic; an error for the claim is only logged.
unfoldable pub claim_of : Pv → M (Option Pvc)
claim_of pv = elim pv.claim_ref [
  | none ↦ lift diverged
  | some (name, namespace) ↦ do
    r ← attempt (get_persistent_volume_claim name namespace)
    elim r [ ok pvc ↦ pure (some pvc) | err e ↦ pure none | diverged ↦ lift diverged ]
]

unfoldable pub volume_and_claim : Bool → Str → M (Option Pv × Option Pvc)
volume_and_claim has_client volume_id = if not has_client then pure (none, none) else do
  r ← attempt (get_persistent_volume volume_id)
  elim r [
    | ok pv ↦ claim_of pv >>= λ pvc. pure (some pv, pvc)
    | err e ↦ pure (none, none)
    | diverged ↦ lift diverged
  ]

-- The annotations of the claim that begin with `juicefs` overwrite the context.
unfoldable pub overwrite_context : GoMap Str → GoMap Str → GoMap Str
unfolding has_prefix insert
overwrite_context [] vol_ctx = vol_ctx
overwrite_context ((k, v) ∷ annotations) vol_ctx =
    overwrite_context annotations
      (if has_prefix k (lit "juicefs") then insert k v vol_ctx else vol_ctx)

abbrev with_annotations : Option Pvc → Option (GoMap Str) → Option (GoMap Str)
with_annotations none vol_ctx = vol_ctx
with_annotations (some pvc) vol_ctx =
    some (overwrite_context pvc.annotations (get_or_else [] vol_ctx))

unfoldable pub ee_setting : GoMap Str → JfsSetting → M JfsSetting
ee_setting secrets setting =
    (if is_empty (get_str (lit "token") secrets)
      then pure setting.format_cmd
      else attempt (auth_fs secrets setting false) >>= λ r. elim r [
        | ok text ↦ pure text
        | err e ↦ fail (other "juicefs auth error")
        | diverged ↦ lift diverged
      ])
    >>= λ format_cmd. pure (record setting {
      format_cmd = format_cmd;
      uuid = get_str (lit "name") secrets;
      init_config = get_str (lit "initconfig") secrets;
    })

unfoldable pub ce_setting : GoMap Str → JfsSetting → M JfsSetting
ce_setting secrets setting = do
  r ← attempt (
      ce_format secrets
        (is_empty (get_str (lit "storage") secrets) || is_empty (get_str (lit "bucket") secrets))
        setting)
  elim r [
    | ok text ↦ pure (record setting { format_cmd = text })
    | err e ↦ fail (other "juicefs format error")
    | diverged ↦ lift diverged
  ]

-- `none` is a nil map.
unfoldable pub parsed_setting :
    Juicefs → Str → Option (GoMap Str) → Option (GoMap Str) → List Str → M JfsSetting
unfolding valid_options overwrite_context
parsed_setting j volume_id secrets vol_ctx options = do
  mount_options ← lift (valid_options j.sizes (get_or_else [] vol_ctx) options)
  (pv, pvc) ← volume_and_claim j.has_client volume_id
  by_process ← ask (λ env t. env.by_process)
  lift (
      parse_setting j.globals j.library secrets (with_annotations pvc vol_ctx) mount_options
        (not by_process) pv pvc)

unfoldable pub with_command : GoMap Str → JfsSetting → M JfsSetting
with_command secrets setting =
    if not setting.is_ce then ee_setting secrets setting else ce_setting secrets setting

unfoldable pub settings :
    Juicefs → Str → Option (GoMap Str) → Option (GoMap Str) → List Str → M JfsSetting
settings j volume_id secrets vol_ctx options = do
  parsed ← parsed_setting j volume_id secrets vol_ctx options
  with_command (get_or_else [] secrets) (record parsed { volume_id = volume_id })

unfoldable pub uuid_for : JfsSetting → M Str
uuid_for setting = if setting.is_ce then get_jfs_vol_uuid setting.source else pure setting.name

unfoldable pub with_uuid : JfsSetting → M JfsSetting
with_uuid setting =
    if not setting.clean_cache
    then pure setting
    else uuid_for setting >>= λ uuid. pure (record setting { uuid = uuid })

unfoldable pub gen_jfs_settings :
    Juicefs → Str → Str → Option (GoMap Str) → Option (GoMap Str) → List Str → M JfsSetting
gen_jfs_settings j volume_id target secrets vol_ctx options = do
  parsed ← settings j volume_id secrets vol_ctx options
  unique_id ← get_unique_id volume_id
  with_uuid (record parsed { target_path = target; unique_id = unique_id })

abbrev pub mounter : Juicefs → Bool → Mounter
mounter j by_process = if by_process then j.process_mount else j.pod_mount

abbrev for_volume : JfsSetting → Str → JfsSetting
for_volume setting sub_path = record setting {
  sub_path = sub_path;
  mount_path = path_join (lit "/tmp" ∷ setting.volume_id ∷ []);
}

unfoldable pub jfs_create_vol :
    Juicefs → Str → Str → Option (GoMap Str) → Option (GoMap Str) → M (Unit {0})
jfs_create_vol j volume_id sub_path secrets vol_ctx = do
  setting ← gen_jfs_settings j volume_id [] secrets vol_ctx []
  by_process ← ask (λ env t. env.by_process)
  (mounter j by_process).j_create_volume (for_volume setting sub_path)

-- With mount pods, the context and the options are those of the volume.
unfoldable pub context_of :
    Bool → Str → Option (GoMap Str) → List Str → M (Option (GoMap Str) × List Str)
context_of by_process volume_id vol_ctx options = if by_process then pure (vol_ctx, options) else do
  pv ← get_persistent_volume volume_id
  elim pv.csi [ none ↦ lift diverged | some csi ↦ pure (some csi.attributes, pv.mount_options) ]

unfoldable pub jfs_delete_vol :
    Juicefs → Str → Str → Option (GoMap Str) → Option (GoMap Str) → List Str → M (Unit {0})
jfs_delete_vol j volume_id sub_path secrets vol_ctx options = do
  by_process ← ask (λ env t. env.by_process)
  (ctx, opts) ← context_of by_process volume_id vol_ctx options
  setting ← gen_jfs_settings j volume_id [] secrets ctx opts
  (mounter j by_process).j_delete_volume (for_volume setting sub_path)
  cleanup_mount_point (for_volume setting sub_path).mount_path

abbrev pub mount_point_of : JfsSetting → Str
mount_point_of setting =
    path_join
      ((if setting.use_pod then lit "/jfs" else lit "/var/lib/jfs") ∷ setting.unique_id ∷ [])

unfoldable pub mount_fs : Juicefs → Option AppInfo → JfsSetting → M JfsSetting
mount_fs j app setting =
    (mounter j (not setting.use_pod)).j_mount app
      (record setting { mount_path = mount_point_of setting })

unfoldable pub jfs_mount :
    Juicefs → Str → Str → Option (GoMap Str) → Option (GoMap Str) → List Str → M JfsSetting
jfs_mount j volume_id target secrets vol_ctx options = do
  by_process ← ask (λ env t. env.by_process)
  lift (valid_target by_process j.kubelet_dir target)
  setting ← gen_jfs_settings j volume_id target secrets vol_ctx options
  app ← lift (parse_app_info j.kubelet vol_ctx)
  mount_fs j app setting

unfoldable pub get_sub_path : Str → M Str
unfolding value_at
get_sub_path volume_id = do
  provisioner ← ask (λ env t. env.provisioner)
  if not provisioner then pure volume_id else do
    pv ← get_persistent_volume volume_id
    elim pv.csi [ none ↦ lift diverged | some csi ↦ pure (value_at csi.attributes (lit "subPath")) ]
