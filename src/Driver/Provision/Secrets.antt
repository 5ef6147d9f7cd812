-- ===== src/Driver/Provision/Secrets.antt =====
-- The finalizer of a secret in Delete of pkg/driver/provisioner.go.
use juicedata_juicefs_csi_dr.Prelude.{
  ℕ, suc, ◌≡◌, ◌≢◌, refl, sym, ◌∙◌, ap, Bool, true, false, not, List, [], ◌∷◌, Str, lit, str_eq,
  is_empty, GoMap, Option, none, some, ◌||◌, arith,
}
use juicedata_juicefs_csi_dr.Kube.{
  Pv, CsiSource, Secret, Env, Trace, Result, ok, diverged, value_at, patched_secret, Keeps,
  bind-Keeps, attempt-Keeps, pure-Keeps, fail-Keeps, if-Keeps, unless-Keeps, answer-Keeps,
  bind_yield-Keeps, Yields, pure-Yields, if-Yields, list_persistent_volumes, get_secret, lift,
  bind-ok,
}
use juicedata_juicefs_csi_dr.Util.Sharing.{
  provisioner_secret_name, provisioner_secret_namespace, same_secret, check_others,
  check_for_sub_path, check_for_secret_finalizer, same_sub_path,
}
use juicedata_juicefs_csi_dr.Driver.Provider.{Provider}
use juicedata_juicefs_csi_dr.Driver.Provision.{delete, delete_source, delete_from, release_secret}
use juicedata_juicefs_csi_dr.Driver.Provision.Kept.{Conflicting, no_conflict-ne-ok}

-- The patches of secrets so far.
unfoldable pub secret_patches : Trace → ℕ
secret_patches [] = 0
secret_patches (patched_secret name namespace finalizers r ∷ t) = suc (secret_patches t)
secret_patches (_ ∷ t) = secret_patches t

abbrev pub Patched : ℕ → Trace → Type 0
Patched n t = secret_patches t ≡ n

not_true : (r : Result Bool) (b : Bool) → r ≢ ok true → r ≡ ok b → b ≡ false
not_true r true h e = absurd (h e)
not_true r false h e = refl

module _ {env : Env} {n : ℕ} where
  list-Keeps : Keeps env (Patched n) list_persistent_volumes
  unfolding list_persistent_volumes secret_patches
  list-Keeps = record { kept = λ t h. h }

  get_secret-Keeps : (name namespace : Str) → Keeps env (Patched n) (get_secret name namespace)
  unfolding get_secret secret_patches
  get_secret-Keeps name namespace = record { kept = λ t h. h }

  lift-Keeps {ℓ} : {A : Type ℓ} (r : Result A) → Keeps env (Patched n) (lift r)
  lift-Keeps r = record { kept = λ t h. h }

  check_others-Keeps :
      (volume : Pv) (conflicts : GoMap Str → Bool)
      → Keeps env (Patched n) (check_others volume conflicts)
  unfolding check_others
  check_others-Keeps volume conflicts = bind-Keeps list-Keeps (λ pvs. lift-Keeps _)

-- Each listing shows another live volume of the class with the secret.
abbrev pub AlwaysShared : Env → Pv → CsiSource → Type 0
AlwaysShared env volume csi =
    (t : Trace) (pvs : List Pv)
    → env.list_pvs_reply t ≡ ok pvs
    → Conflicting volume (same_secret csi.attributes) pvs

module _ {env : Env} (volume : Pv) (csi : CsiSource) (shared : AlwaysShared env volume csi) where
  check_others-Yields :
      Yields env (λ b. b ≡ false) (check_others volume (same_secret csi.attributes))
  unfolding check_others list_persistent_volumes
  check_others-Yields = record {
    yields = λ t b e.
        let (pvs, got, rest) = bind-ok (list_persistent_volumes env t) _ env b e in
        not_true _ b (no_conflict-ne-ok volume (same_secret csi.attributes) pvs (shared t pvs got))
          (ap (λ x. x.0) (sym rest) ∙ e);
  }

  check_secret-Yields :
      Yields env (λ b. b ≡ false) (check_for_secret_finalizer volume csi.attributes)
  unfolding check_for_secret_finalizer
  check_secret-Yields = if-Yields _ (pure-Yields false refl) check_others-Yields

  check_secret-Keeps :
      {n : ℕ} → Keeps env (Patched n) (check_for_secret_finalizer volume csi.attributes)
  unfolding check_for_secret_finalizer
  check_secret-Keeps =
      unless-Keeps
        (is_empty volume.storage_class
          || (is_empty (value_at csi.attributes provisioner_secret_namespace)
              || is_empty (value_at csi.attributes provisioner_secret_name)))
        false (λ _. check_others-Keeps volume (same_secret csi.attributes))

  release-Keeps :
      {n : ℕ} (secret : Secret) → Keeps env (Patched n) (release_secret volume csi secret)
  unfolding release_secret
  release-Keeps secret =
      unless-Keeps (not (str_eq (value_at csi.attributes (lit "secretFinalizer")) (lit "true"))) tt
        (λ _.
          bind_yield-Keeps check_secret-Keeps check_secret-Yields
            (λ b no. if-Keeps (not b) (λ _. pure-Keeps tt) (λ s. absurd (ground arith))))

  delete_from-Keeps :
      (p : Provider) (n : ℕ) (ref : Str × Str)
      → ((name sub_path : Str) (secrets attributes : GoMap Str) (options : List Str)
          → Keeps env (Patched n) (p.jfs_delete_vol name sub_path secrets attributes options))
      → Keeps env (Patched n) (delete_from p volume csi ref)
  unfolding delete_from
  delete_from-Keeps p n (name, namespace) quiet =
      bind-Keeps (get_secret-Keeps name namespace) (λ secret.
        bind-Keeps (attempt-Keeps (quiet _ _ _ _ _))
          (λ r. answer-Keeps r (λ u. release-Keeps secret) (λ e. fail-Keeps _)))

  check_sub_path-Keeps :
      {n : ℕ} (pattern : Str)
      → Keeps env (Patched n) (check_for_sub_path volume csi.attributes pattern)
  unfolding check_for_sub_path
  check_sub_path-Keeps pattern = unless-Keeps (is_empty pattern) true (λ _.
      unless-Keeps (is_empty volume.storage_class) false
        (λ _. check_others-Keeps volume (same_sub_path csi.attributes)))

  ref-Keeps :
      (p : Provider) (n : ℕ) (ref : Option (Str × Str))
      → ((name sub_path : Str) (secrets attributes : GoMap Str) (options : List Str)
          → Keeps env (Patched n) (p.jfs_delete_vol name sub_path secrets attributes options))
      → Keeps env
          (Patched n)
          {A = Unit {0}}
          (elim ref [ none ↦ lift diverged | some ref' ↦ delete_from p volume csi ref' ])
  ref-Keeps p n none quiet = lift-Keeps diverged
  ref-Keeps p n (some ref) quiet = delete_from-Keeps p n ref quiet

  delete_source-Keeps :
      (p : Provider) (n : ℕ)
      → ((name sub_path : Str) (secrets attributes : GoMap Str) (options : List Str)
          → Keeps env (Patched n) (p.jfs_delete_vol name sub_path secrets attributes options))
      → Keeps env (Patched n) (delete_source p volume csi)
  unfolding delete_source
  delete_source-Keeps p n quiet =
      bind-Keeps (check_sub_path-Keeps (value_at csi.attributes (lit "pathPattern")))
        (λ should_delete.
          unless-Keeps (not should_delete) tt (λ _. ref-Keeps p n csi.publish_secret quiet))

-- The finalizer of a secret stays: while each listing shows another live volume of the storage
-- class that has the secret, Delete patches no secret, if the provider patches none.
pub delete-Keeps :
    (p : Provider) (volume : Pv) (csi : CsiSource) (env : Env) (n : ℕ)
    → volume.csi ≡ some csi
    → AlwaysShared env volume csi
    → ((name sub_path : Str) (secrets attributes : GoMap Str) (options : List Str)
        → Keeps env (Patched n) (p.jfs_delete_vol name sub_path secrets attributes options))
    → Keeps env (Patched n) (delete p volume)
unfolding delete
delete-Keeps p volume csi env n source shared quiet =
    unless-Keeps (not (str_eq volume.reclaim_policy (lit "Delete"))) tt
      (λ _. rw source (delete_source-Keeps volume csi shared p n quiet))
