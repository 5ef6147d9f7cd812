-- ===== src/Driver/Node/Binding.antt =====
-- What a successful NodePublishVolume of pkg/driver/node.go has done, and how errors are counted.
use juicedata_juicefs_csi_dr.Prelude.{
  ℕ, ◌≡◌, refl, ◌∙◌, inl, inr, false, Option, some, [], ◌∷◌, Str, lit, String, get_str, is_empty,
  Bool-cases, Option-cases,
}
use juicedata_juicefs_csi_dr.Kube.{
  Env, Trace, Err, Result, ok, err, diverged, M, continue, status, internal, incremented, bind-ok,
  not-err-ok, not-diverged-ok,
}
use juicedata_juicefs_csi_dr.Juicefs.Settings.{JfsSetting}
use juicedata_juicefs_csi_dr.Driver.Capability.{VolumeCapability, is_valid_volume_capabilities}
use juicedata_juicefs_csi_dr.Driver.Provider.{Provider, Jfs}
use juicedata_juicefs_csi_dr.Driver.Node.Publish.{
  PublishRequest, or_counted, mount_options, mount_and_bind, publish_supported, node_publish_volume,
  node_unpublish_volume,
}
use juicedata_juicefs_csi_dr.Driver.Statuses.{or_status_then}

-- What the service makes of an answer of the provider.
abbrev pub counted {ℓ} : {A : Type ℓ} → String → Err → Result A × Trace → Result A × Trace
counted counter e (ok a, t) = (ok a, t)
counted counter e (err e', t) = (err e, incremented counter ∷ t)
counted counter e (diverged, t) = (diverged, t)

counted-known {ℓ} :
    {A : Type ℓ} (counter : String) (e : Err) (r : Result A × Trace) (env : Env) (t : Trace)
    → or_counted counter e (λ _ _. r) env t ≡ counted counter e r
unfolding or_counted
counted-known counter e (ok a, t') env t = refl
counted-known counter e (err e', t') env t = refl
counted-known counter e (diverged, t') env t = refl

or_counted-counted {ℓ} :
    {A : Type ℓ} (counter : String) (e : Err) (m : M A) (env : Env) (t : Trace)
    → or_counted counter e m env t ≡ counted counter e (m env t)
unfolding or_counted
or_counted-counted counter e m env t = counted-known counter e (m env t) env t

counted-ok {ℓ} :
    {A : Type ℓ} (counter : String) (e : Err) (r : Result A × Trace) (a : A)
    → (counted counter e r).0 ≡ ok a
    → (r.0 ≡ ok a) × (counted counter e r ≡ r)
counted-ok counter e (ok a', t) a h = (h, refl)
counted-ok counter e (err e', t) a h = absurd (cc)
counted-ok counter e (diverged, t) a h = absurd (cc)

or_counted-ok {ℓ} :
    {A : Type ℓ} (counter : String) (e : Err) (m : M A) (env : Env) (t : Trace) (a : A)
    → (or_counted counter e m env t).0 ≡ ok a
    → ((m env t).0 ≡ ok a) × (or_counted counter e m env t ≡ m env t)
or_counted-ok counter e m env t a h =
    let same = or_counted-counted counter e m env t in
    let (got, eq) = counted-ok counter e (m env t) a (rw same at h) in (got, same ∙ eq)

-- An unmount that fails is reported as an internal error, and counted once; one that succeeds is
-- not counted.
pub node_unpublish_volume-counted :
    (p : Provider) (volume_id target : Str) (env : Env) (t : Trace)
    → is_empty target ≡ false
    → node_unpublish_volume p volume_id target env t
      ≡ counted "volume_del_errors"
          (status internal "Could not unmount")
          (p.jfs_unmount volume_id target env t)
unfolding node_unpublish_volume
node_unpublish_volume-counted p volume_id target env t h =
    rw h (or_counted-counted _ _ (p.jfs_unmount volume_id target) env t)

-- The provider's calls behind a volume that is bound, in order, all successful.
pub record IsBound (p : Provider) (req : PublishRequest) (cap : VolumeCapability) (env : Env)
    (t : Trace) : Type 0 where
  pub jfs : Jfs
  pub source : Str
  pub after_mount : Trace
  pub after_create : Trace
  pub after_bind : Trace
  pub mounted :
      p.jfs_mount req.volume_id req.target_path req.secrets req.volume_context
        (mount_options req cap)
        env
        t
      ≡ (ok jfs, after_mount)
  pub prepared :
      p.create_vol jfs req.volume_id (get_str (lit "subPath") req.volume_context) env after_mount
      ≡ (ok source, after_create)
  pub bound : p.bind_target jfs source req.target_path env after_create ≡ (ok tt, after_bind)

counted_then {ℓ κ} :
    {A : Type ℓ} {B : Type κ} (counter : String) (e : Err) (r : Result A × Trace) (f : A → M B)
    (env : Env) (b : B)
    → (continue (counted counter e r) f env).0 ≡ ok b
    → (a : A) × (r ≡ (ok a, r.1)) × ((f a env r.1).0 ≡ ok b)
counted_then counter e (ok a, t) f env b h = (a, refl, h)
counted_then counter e (err e', t) f env b h = absurd (not-err-ok h)
counted_then counter e (diverged, t) f env b h = absurd (not-diverged-ok h)

-- A counted call and what follows it succeed only where the call does.
or_counted_then {ℓ κ} :
    {A : Type ℓ} {B : Type κ} (counter : String) (e : Err) (m : M A) (f : A → M B) (env : Env)
    (t : Trace) (b : B)
    → (continue (or_counted counter e m env t) f env).0 ≡ ok b
    → (a : A) × (m env t ≡ (ok a, (m env t).1)) × ((f a env (m env t).1).0 ≡ ok b)
or_counted_then counter e m f env t b h =
    counted_then counter e (m env t) f env b (rw (or_counted-counted counter e m env t) at h)

mount_and_bind-IsBound :
    (p : Provider) (req : PublishRequest) (cap : VolumeCapability) (env : Env) (t : Trace)
    (jfs : Jfs)
    → (mount_and_bind p req cap env t).0 ≡ ok jfs
    → IsBound p req cap env t
unfolding mount_and_bind
mount_and_bind-IsBound p req cap env t jfs h =
    let (j, mounted, h₁) = or_counted_then _ _ _ _ env t jfs h in
    let (source, prepared, h₂) = or_counted_then _ _ _ _ env _ jfs h₁ in
    let (u, bound, h₃) = or_counted_then _ _ _ _ env _ jfs h₂ in
    record {
      jfs = j;
      source = source;
      after_mount = _;
      after_create = _;
      after_bind = _;
      mounted = mounted;
      prepared = prepared;
      bound = bound;
    }

-- The three calls are what a published volume rests on.
supported-IsBound :
    (p : Provider) (parse_int : Str → Option ℕ) (capacity_of : JfsSetting → ℕ → ℕ)
    (req : PublishRequest) (cap : VolumeCapability) (env : Env) (t : Trace)
    → (publish_supported p parse_int capacity_of req cap env t).0 ≡ ok tt
    → (p.create_target req.target_path env t ≡ (ok tt, (p.create_target req.target_path env t).1))
      × IsBound p req cap env (p.create_target req.target_path env t).1
unfolding publish_supported
supported-IsBound p parse_int capacity_of req cap env t h =
    elim (Bool-cases (is_valid_volume_capabilities (cap ∷ []))) [
      | inl valid ↦
          let (u, made, h₁) = or_status_then _ _ _ env t tt (rw valid at h) in
          let (jfs, mounted, h₂) =
            bind-ok (mount_and_bind p req cap env (p.create_target req.target_path env t).1) _ env
              tt h₁ in
          (made, mount_and_bind-IsBound p req cap env _ jfs mounted)
      | inr invalid ↦ absurd (not-err-ok (rw invalid at h))
    ]

-- A NodePublishVolume that succeeds had a target path and a capability, has made the target, and
-- has then mounted the filesystem, prepared the volume's directory and bound it to the target, in
-- this order and each with success.
pub node_publish_volume-IsBound :
    (p : Provider) (parse_int : Str → Option ℕ) (capacity_of : JfsSetting → ℕ → ℕ)
    (req : PublishRequest) (env : Env) (t : Trace)
    → (node_publish_volume p parse_int capacity_of req env t).0 ≡ ok tt
    → (is_empty req.target_path ≡ false)
      × ((cap : VolumeCapability) × (req.capability ≡ some cap)
          × (p.create_target req.target_path env t
              ≡ (ok tt, (p.create_target req.target_path env t).1))
          × IsBound p req cap env (p.create_target req.target_path env t).1)
unfolding node_publish_volume
node_publish_volume-IsBound p parse_int capacity_of req env t h =
    elim (Bool-cases (is_empty req.target_path)) [
      | inl empty ↦ absurd (not-err-ok (rw empty at h))
      | inr given ↦ elim (Option-cases req.capability) [
        | inl none_given ↦ absurd (not-err-ok (rw (given, none_given) at h))
        | inr (cap, with_cap) ↦
            let (made, bound) =
              supported-IsBound p parse_int capacity_of req cap env t (rw (given, with_cap) at h) in
            (given, (cap, with_cap, made, bound))
      ]
    ]
