-- ===== src/Driver/Controller/Expansions.antt =====
-- What ControllerExpandVolume of pkg/driver/controller.go has done when it succeeds.
use juicedata_juicefs_csi_dr.Prelude.{
  ℕ, ◌≡◌, ◌≤◌, ◌⊎◌, false, some, Str, is_empty, arith, subst, Bool-cases, Option-cases, inl, inr,
  ◌&&◌, ltb, ◌++◌, split, lit, get_elem?, [], ◌∷◌, List, refl, ap, ◌∙◌, str_eq, str_eq_iff,
  path_join, zero, suc, get_or_else,
}
use juicedata_juicefs_csi_dr.Kube.{Env, Trace, ok, not-err-ok}
use juicedata_juicefs_csi_dr.Juicefs.Settings.{JfsSetting}
use juicedata_juicefs_csi_dr.Driver.Capability.{VolumeCapability, mount_flags}
use juicedata_juicefs_csi_dr.Driver.Provider.{Provider}
use juicedata_juicefs_csi_dr.Driver.Statuses.{or_status_then}
use juicedata_juicefs_csi_dr.Driver.Controller.Expand.{
  CapacityRange, ExpandRequest, set_capacity, expand_within, controller_expand_volume, subdir_of,
  subdir_of_pair,
}

-- The option names the directory `v`.
abbrev pub NamesSubdir : Str → Str → Type 0
NamesSubdir option v = split option (lit "=") ≡ lit "subdir" ∷ v ∷ []

abbrev pub NoneNamesSubdir : List Str → Type 0
NoneNamesSubdir options =
    (i : ℕ) (option v : Str) → get_elem? options i ≡ some option → NamesSubdir option v → ⊥

-- The directory of the last option that names one, from the root; `otherwise` if none does.
pub data Subdir (otherwise : Str) (options : List Str) (dir : Str) : Type 0 where
  no_option : NoneNamesSubdir options → dir ≡ otherwise → Subdir otherwise options dir
  last_option :
      (before behind : List Str) (option v : Str)
      → options ≡ before ++ option ∷ behind
      → NamesSubdir option v
      → NoneNamesSubdir behind
      → dir ≡ path_join (lit "/" ∷ v ∷ [])
      → Subdir otherwise options dir

pair-cases :
    (subdir : Str) (parts : List Str)
    → ((v : Str) × (parts ≡ lit "subdir" ∷ v ∷ [])
        × (subdir_of_pair subdir parts ≡ path_join (lit "/" ∷ v ∷ [])))
      ⊎ (((v : Str) → parts ≡ lit "subdir" ∷ v ∷ [] → ⊥) × (subdir_of_pair subdir parts ≡ subdir))
pair-cases subdir [] = inr ((λ v e. cc), refl)
pair-cases subdir (k ∷ []) = inr ((λ v e. cc), refl)
pair-cases subdir (k ∷ v ∷ []) = elim (Bool-cases (str_eq k (lit "subdir"))) [
  | inl same ↦ inl (v, ap (λ x. x ∷ v ∷ []) ((str_eq_iff k (lit "subdir")).0 same), rw same refl)
  | inr other' ↦ inr (
    (λ w e.
        ground
          (arith, str_eq_iff k (lit "subdir"), ap (get_or_else k) (ap (λ l. get_elem? l 0) e))),
    rw other' refl,
  )
]
pair-cases subdir (k ∷ v ∷ w ∷ rest) = inr ((λ x e. cc), refl)

none_named-cons :
    (o : Str) (options : List Str)
    → ((v : Str) → NamesSubdir o v → ⊥)
    → NoneNamesSubdir options
    → NoneNamesSubdir (o ∷ options)
none_named-cons o options first rest zero option v found names =
    first v (ap (λ x. split x (lit "=")) (ap (get_or_else o) found) ∙ names)
none_named-cons o options first rest (suc i) option v found names = rest i option v found names

subdir_of-Subdir :
    (otherwise : Str) (options : List Str) → Subdir otherwise options (subdir_of otherwise options)
unfolding subdir_of
subdir_of-Subdir otherwise [] = no_option (λ i option v found names. cc) refl
subdir_of-Subdir otherwise (o ∷ options) =
    elim (subdir_of-Subdir (subdir_of_pair otherwise (split o (lit "="))) options) [
      | last_option before behind option v whole names none_behind dir ↦
          last_option (o ∷ before) behind option v (ap (◌∷◌ o) whole) names none_behind dir
      | no_option none_behind dir ↦ elim (pair-cases otherwise (split o (lit "="))) [
        | inl (v, names, joined) ↦ last_option [] options o v refl names none_behind (dir ∙ joined)
        | inr (other', same) ↦ no_option (none_named-cons o options other' none_behind) (dir ∙ same)
      ]
    ]

-- The quota of the size has been set, with success: on the sub-path of the volume, in the directory
-- that the options of its settings name. Each call starts where the one before it left off.
pub record QuotaSet (p : Provider) (req : ExpandRequest) (cap : VolumeCapability) (size : ℕ)
    (env : Env) (t : Trace) : Type 0 where
  pub sub_path : Str
  pub after_path : Trace
  pub got_path : p.get_sub_path req.volume_id env t ≡ (ok sub_path, after_path)
  pub settings : JfsSetting
  pub after_settings : Trace
  pub got_settings :
      p.settings req.volume_id req.secrets [] (mount_flags cap) env after_path
      ≡ (ok settings, after_settings)
  pub dir : Str
  pub subdir : Subdir [] settings.options dir
  pub after_quota : Trace
  pub set :
      p.set_quota req.secrets settings (path_join (dir ∷ sub_path ∷ [])) size env after_settings
      ≡ (ok tt, after_quota)

set_capacity-QuotaSet :
    (p : Provider) (req : ExpandRequest) (range : CapacityRange) (cap : VolumeCapability)
    (env : Env) (t : Trace) (size : ℕ)
    → (set_capacity p req range cap env t).0 ≡ ok size
    → (range.required_bytes ≡ size) × QuotaSet p req cap range.required_bytes env t
unfolding set_capacity
set_capacity-QuotaSet p req range cap env t size h =
    let (quota_path, got_path, h₁) = or_status_then _ _ _ env t size h in
    let (settings, got_settings, h₂) = or_status_then _ _ _ env _ size h₁ in
    let (u, quota, h₃) = or_status_then _ _ _ env _ size h₂ in
    (
      ground (arith, h₃),
      record {
        sub_path = quota_path;
        after_path = _;
        got_path = got_path;
        settings = settings;
        after_settings = _;
        got_settings = got_settings;
        dir = subdir_of [] settings.options;
        subdir = subdir_of-Subdir [] settings.options;
        after_quota = _;
        set = quota;
      },
    )

-- What a request has that is expanded to `size`.
pub record Expanded (p : Provider) (req : ExpandRequest) (size : ℕ) (env : Env) (t : Trace)
    : Type 0 where
  pub range : CapacityRange
  pub given : req.capacity_range ≡ some range
  pub named : is_empty req.volume_id ≡ false
  pub asked : range.required_bytes ≡ size
  pub within : (range.limit_bytes ≡ 0) ⊎ (size ≤ range.limit_bytes)
  pub capability : VolumeCapability
  pub with_capability : req.capability ≡ some capability
  pub quota : QuotaSet p req capability range.required_bytes env t

within_limit :
    (limit size : ℕ) → (ltb 0 limit && ltb limit size) ≡ false → (limit ≡ 0) ⊎ (size ≤ limit)
within_limit limit size h = ground arith

within-Expanded :
    (p : Provider) (req : ExpandRequest) (range : CapacityRange) (size : ℕ) (env : Env) (t : Trace)
    → req.capacity_range ≡ some range
    → is_empty req.volume_id ≡ false
    → (expand_within p req range env t).0 ≡ ok size
    → Expanded p req size env t
unfolding expand_within
within-Expanded p req range size env t given named h =
    elim (Bool-cases (ltb 0 range.limit_bytes && ltb range.limit_bytes range.required_bytes)) [
      | inl over ↦ absurd (not-err-ok (rw over at h))
      | inr fits ↦ elim (Option-cases req.capability) [
        | inl missing ↦ absurd (not-err-ok (rw (fits, missing) at h))
        | inr (capability, e) ↦
            let (same, quota) =
              set_capacity-QuotaSet p req range capability env t size (rw (fits, e) at h) in
            record {
              range = range;
              given = given;
              named = named;
              asked = same;
              within =
                  subst (λ n. (range.limit_bytes ≡ 0) ⊎ (n ≤ range.limit_bytes)) same
                    (within_limit range.limit_bytes range.required_bytes fits);
              capability = capability;
              with_capability = e;
              quota = quota;
            }
      ]
    ]

-- An expansion that succeeds replies with the size that was asked for, which is within the limit if
-- there is one, and has set that size with success as the quota of the volume's sub-path, in the
-- directory that the last option `subdir=` of its settings names, if one does.
pub controller_expand_volume-Expanded :
    (p : Provider) (req : ExpandRequest) (size : ℕ) (env : Env) (t : Trace)
    → (controller_expand_volume p req env t).0 ≡ ok size
    → Expanded p req size env t
unfolding controller_expand_volume
controller_expand_volume-Expanded p req size env t h = elim (Bool-cases (is_empty req.volume_id)) [
  | inl empty ↦ absurd (not-err-ok (rw empty at h))
  | inr named ↦ elim (Option-cases req.capacity_range) [
    | inl missing ↦ absurd (not-err-ok (rw (named, missing) at h))
    | inr (range, given) ↦
        within-Expanded p req range size env t given named (rw (named, given) at h)
  ]
]
