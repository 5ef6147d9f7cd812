-- ===== src/Juicefs/Provider/Mounted.antt =====
-- What JfsMount of pkg/juicefs/juicefs.go has done when it succeeds.
use juicedata_juicefs_csi_dr.Prelude.{◌≡◌, refl, sym, ap, ◌∙◌, not, Option, List, Str, GoMap}
use juicedata_juicefs_csi_dr.Kube.{
  Env, Trace, Result, ok, other, bind-ok, Yields, fail-Yields, pure-Yields, bind-Yields, if-Yields,
  answer-Yields,
}
use juicedata_juicefs_csi_dr.Juicefs.Settings.{JfsSetting, AppInfo}
use juicedata_juicefs_csi_dr.Juicefs.Provider.Unmount.{get_unique_id}
use juicedata_juicefs_csi_dr.Juicefs.Provider.Mounts.{
  Juicefs, ee_setting, ce_setting, settings, gen_jfs_settings, uuid_for, with_command, with_uuid,
  mount_fs, jfs_mount, mounter, mount_point_of,
}
use juicedata_juicefs_csi_dr.Juicefs.Provider.Files.{valid_target}
use juicedata_juicefs_csi_dr.Config.AppInfo.{parse_app_info}

-- The settings are those of the volume.
abbrev Of : Str → JfsSetting → Type 0
Of volume_id setting = setting.volume_id ≡ volume_id

module _ {env : Env} (volume_id : Str) where
  ee-Yields :
      (secrets : GoMap Str) (setting : JfsSetting)
      → Of volume_id setting
      → Yields env (Of volume_id) (ee_setting secrets setting)
  unfolding ee_setting
  ee-Yields secrets setting q = bind-Yields _ (λ (format_cmd : Str). pure-Yields _ q)

  ce-Yields :
      (secrets : GoMap Str) (setting : JfsSetting)
      → Of volume_id setting
      → Yields env (Of volume_id) (ce_setting secrets setting)
  unfolding ce_setting
  ce-Yields secrets setting q = bind-Yields _ (λ (r : Result Str).
      answer-Yields r (λ text. pure-Yields (record setting { format_cmd = text }) q)
        (λ e. fail-Yields (other "juicefs format error")))

  command-Yields :
      (secrets : GoMap Str) (setting : JfsSetting)
      → Of volume_id setting
      → Yields env (Of volume_id) (with_command secrets setting)
  unfolding with_command
  command-Yields secrets setting q =
      if-Yields (not setting.is_ce) (ee-Yields secrets setting q) (ce-Yields secrets setting q)

  settings-Yields :
      (j : Juicefs) (secrets vol_ctx : Option (GoMap Str)) (options : List Str)
      → Yields env (Of volume_id) (settings j volume_id secrets vol_ctx options)
  unfolding settings
  settings-Yields j secrets vol_ctx options =
      bind-Yields _
        (λ (parsed : JfsSetting). command-Yields _ (record parsed { volume_id = volume_id }) refl)

-- The settings of the volume for the target; `unique_id` was answered for the volume, where the
-- history was `asked`.
record Generated (volume_id target : Str) (env : Env) (asked : Trace) (setting : JfsSetting)
    : Type 0 where
  of_volume : setting.volume_id ≡ volume_id
  for_target : setting.target_path ≡ target
  unique : (get_unique_id volume_id env asked).0 ≡ ok setting.unique_id

uuid-Yields :
    {env : Env} (volume_id target : Str) (asked : Trace) (setting : JfsSetting)
    → Generated volume_id target env asked setting
    → Yields env (Generated volume_id target env asked) (with_uuid setting)
unfolding with_uuid
uuid-Yields volume_id target asked setting g =
    if-Yields (not setting.clean_cache) (pure-Yields setting g) (
      bind-Yields (uuid_for setting) (λ uuid.
        pure-Yields (record setting { uuid = uuid })
          (record { of_volume = g.of_volume; for_target = g.for_target; unique = g.unique })))

gen-Generated :
    (j : Juicefs) (volume_id target : Str) (secrets vol_ctx : Option (GoMap Str))
    (options : List Str) (env : Env) (t : Trace) (setting : JfsSetting)
    → (gen_jfs_settings j volume_id target secrets vol_ctx options env t).0 ≡ ok setting
    → Generated volume_id target env (settings j volume_id secrets vol_ctx options env t).1 setting
unfolding gen_jfs_settings
gen-Generated j volume_id target secrets vol_ctx options env t setting h =
    let (parsed, got, rest) =
      bind-ok (settings j volume_id secrets vol_ctx options env t) _ env setting h in
    let asked = (settings j volume_id secrets vol_ctx options env t).1 in
    let (unique_id, got_id, rest') =
      bind-ok (get_unique_id volume_id env asked) _ env setting (ap (λ x. x.0) (sym rest) ∙ h) in
    (uuid-Yields volume_id target asked
        (record parsed { target_path = target; unique_id = unique_id })
        (record {
          of_volume = (settings-Yields volume_id j secrets vol_ctx options).yields t parsed got;
          for_target = refl;
          unique = got_id;
        })).yields
      _ setting (ap (λ x. x.0) (sym rest') ∙ ap (λ x. x.0) (sym rest) ∙ h)

-- What has been done, between the histories `t` and `t'`, for a mount that succeeds.
pub record Mounted (j : Juicefs) (volume_id target : Str) (secrets vol_ctx : Option (GoMap Str))
    (options : List Str) (env : Env) (t : Trace) (s : JfsSetting) (t' : Trace) : Type 0 where
  pub valid : valid_target env.by_process j.kubelet_dir target ≡ ok tt
  -- the settings that were made for the volume
  pub made : JfsSetting
  pub before : Trace
  pub generated :
      gen_jfs_settings j volume_id target secrets vol_ctx options env t ≡ (ok made, before)
  pub of_volume : made.volume_id ≡ volume_id
  pub for_target : made.target_path ≡ target
  -- the unique id that is answered for the volume once its settings are parsed
  pub unique :
      (get_unique_id volume_id env (settings j volume_id secrets vol_ctx options env t).1).0
      ≡ ok made.unique_id
  pub app : Option AppInfo
  pub parsed : parse_app_info j.kubelet vol_ctx ≡ ok app
  -- the mounter of the settings, at the path of the unique id
  pub mounted :
      (mounter j (not made.use_pod)).j_mount app
        (record made { mount_path = mount_point_of made })
        env
        before
      ≡ (ok s, t')

first-ok {ℓ} : {A : Type ℓ} (r : Result A × Trace) (a : A) → r.0 ≡ ok a → r ≡ (ok a, r.1)
first-ok (r, t) a h = ap (λ x. (x, t)) h

-- A mount that succeeds was made, with success, by the mounter of the settings: for a valid target,
-- with the settings of the volume, at the path that its unique id names.
pub jfs_mount-Mounted :
    (j : Juicefs) (volume_id target : Str) (secrets vol_ctx : Option (GoMap Str))
    (options : List Str) (env : Env) (t : Trace) (s : JfsSetting) (t' : Trace)
    → jfs_mount j volume_id target secrets vol_ctx options env t ≡ (ok s, t')
    → Mounted j volume_id target secrets vol_ctx options env t s t'
unfolding jfs_mount mount_fs
jfs_mount-Mounted j volume_id target secrets vol_ctx options env t s t' whole =
    let h = ap (λ x. x.0) whole in
    let (u, valid, h₁) = bind-ok (valid_target env.by_process j.kubelet_dir target, t) _ env s h in
    let (made, got, h₂) =
      bind-ok (gen_jfs_settings j volume_id target secrets vol_ctx options env t) _ env s
        (ap (λ x. x.0) (sym h₁) ∙ h) in
    let (app, parsed, h₃) =
      bind-ok (parse_app_info j.kubelet vol_ctx, _) _ env s
        (ap (λ x. x.0) (sym h₂) ∙ ap (λ x. x.0) (sym h₁) ∙ h) in
    let g = gen-Generated j volume_id target secrets vol_ctx options env t made got in
    record {
      valid = valid;
      made = made;
      before = _;
      generated = first-ok _ made got;
      of_volume = g.of_volume;
      for_target = g.for_target;
      unique = g.unique;
      app = app;
      parsed = parsed;
      mounted = sym h₃ ∙ sym h₂ ∙ sym h₁ ∙ whole;
    }
