-- ===== src/Driver/Provision/Counted.antt =====
-- The counter of errors and the result of Provision of pkg/driver/provisioner.go.
use juicedata_juicefs_csi_dr.Prelude.{
  ℕ, suc, ◌≡◌, refl, ap, Bool, true, false, Option, none, some, [], ◌∷◌, Str, GoMap, if◌then◌else◌,
  contains_string, arith,
}
use juicedata_juicefs_csi_dr.Kube.{
  ◌>>=◌, ◌>>◌, lift, Secret, Env, Trace, Result, ok, err, diverged, M, incremented, got_secret,
  get_secret, settle, continue, patch_secret, Keeps, unless-Keeps,
}
use juicedata_juicefs_csi_dr.Util.Templates.{ObjectMeta}
use juicedata_juicefs_csi_dr.Util.Sharing.{add_secret_finalizer}
use juicedata_juicefs_csi_dr.Driver.Provision.{
  ProvisionOptions, Provisioned, StorageClass, provision, provision_from, provision_with,
  keep_secret, secret_for, is_read_only, pure, finalizer, on_secret, attempt, note,
  provision_errors, fail, status, invalid_argument,
}

-- The errors that the metrics count.
unfoldable pub errors : Trace → ℕ
errors [] = 0
errors (incremented name ∷ t) = suc (errors t)
errors (_ ∷ t) = errors t

-- A result with the history behind it: errors are counted once, a success is not counted.
abbrev pub Counted {ℓ} : {A : Type ℓ} → ℕ → Result A × Trace → Type 0
Counted n (ok a, t) = errors t ≡ n
Counted n (err e, t) = errors t ≡ suc n
Counted n (diverged, t) = errors t ≡ n

continue-Counted {ℓ κ} :
    {A : Type ℓ} {B : Type κ} (n : ℕ) (r : Result A × Trace) (f : A → M B) (env : Env)
    → Counted n r
    → ((a : A) (t : Trace) → errors t ≡ n → Counted n (f a env t))
    → Counted n (continue r f env)
continue-Counted n (ok a, t) f env h k = k a t h
continue-Counted n (err e, t) f env h k = h
continue-Counted n (diverged, t) f env h k = h

pub record Counts {ℓ} (env : Env) {A : Type ℓ} (m : M A) : Type 0 where
  pub counts : (n : ℕ) (t : Trace) → errors t ≡ n → Counted n (m env t)

module _ {env : Env} where
  bind-Counts {ℓ κ} :
      {A : Type ℓ} {B : Type κ} {m : M A} {f : A → M B}
      → Counts env m
      → ((a : A) → Counts env (f a))
      → Counts env (m >>= f)
  bind-Counts {m = m} {f = f} h k = record {
    counts = λ n t e.
        continue-Counted n (m env t) f env (h.counts n t e) (λ a t' e'. (k a).counts n t' e');
  }

  if-Counts {ℓ} :
      {A : Type ℓ} (b : Bool) {m m' : M A}
      → Counts env m
      → Counts env m'
      → Counts env (if b then m else m')
  if-Counts true h k = h
  if-Counts false h k = k

  pure-Counts {ℓ} : {A : Type ℓ} (a : A) → Counts env (pure a)
  pure-Counts a = record { counts = λ n t h. h }

add-Keeps :
    (env : Env) (n : ℕ) (secret : Secret) (finalizer : Str)
    → Keeps env (λ t. errors t ≡ n) (add_secret_finalizer secret finalizer)
unfolding add_secret_finalizer errors patch_secret
add-Keeps env n secret finalizer =
    unless-Keeps (contains_string secret.finalizers finalizer) tt (λ _. record { kept = λ t h. h })

ignored-Counted :
    (n : ℕ) (r : Result (Unit {0}) × Trace) (env : Env)
    → errors r.1 ≡ n
    → Counted n (continue (settle r) (λ _. pure (tt {0})) env)
ignored-Counted n (ok a, t) env h = h
ignored-Counted n (err e, t) env h = h
ignored-Counted n (diverged, t) env h = h

ignored-Counts :
    {env : Env} (secret : Secret) (finalizer : Str)
    → Counts env (attempt (add_secret_finalizer secret finalizer) >>= λ r. pure (tt {0}))
ignored-Counts {env} secret finalizer = record {
  counts = λ n t h.
      ignored-Counted n (add_secret_finalizer secret finalizer env t) env
        ((add-Keeps env n secret finalizer).kept t h);
}

answered-Counted :
    (n : ℕ) (r : Result Secret) (name namespace : Str) (env : Env) (t : Trace)
    → errors t ≡ n
    → Counted n (continue (settle (r, got_secret name namespace r ∷ t)) on_secret env)
unfolding errors
answered-Counted n (ok secret) name namespace env t h = h
answered-Counted n (err e) name namespace env t h = ap suc h
answered-Counted n diverged name namespace env t h = h

module _ {env : Env} where
  keep_secret-Counts :
      (sc : StorageClass) (policy : Str) (secret : Secret)
      → Counts env (keep_secret sc policy secret)
  unfolding keep_secret
  keep_secret-Counts sc policy secret =
      if-Counts _ (pure-Counts tt) (ignored-Counts secret finalizer)

  policy-Counts {ℓ} :
      {A : Type ℓ} (policy : Option Str) {f : Str → M A}
      → ((policy' : Str) → Counts env (f policy'))
      → Counts env {A = A} (elim policy [ none ↦ lift diverged | some policy' ↦ f policy' ])
  policy-Counts none h = record { counts = λ n t e. e }
  policy-Counts (some policy) h = h policy

  with_policy-Counts :
      (options : ProvisionOptions) (meta : ObjectMeta) (sc_params : GoMap Str) (secret : Secret)
      → Counts env (provision_with options meta sc_params secret)
  unfolding provision_with
  with_policy-Counts options meta sc_params secret =
      policy-Counts options.storage_class.reclaim_policy (λ policy.
        bind-Counts (keep_secret-Counts options.storage_class policy secret)
          (λ u. record { counts = λ n t h. h }))

  secret_for-Counts : (sc_params : GoMap Str) → Counts env (secret_for sc_params)
  unfolding secret_for get_secret
  secret_for-Counts sc_params = record {
    counts = λ n t h. answered-Counted n (env.get_secret_reply t _ _) _ _ env t h;
  }

  refused-Counts : Counts env (
      note provision_errors
      >> fail {A = Provisioned} (status invalid_argument "read-only mode cannot be used"))
  unfolding errors
  refused-Counts = record { counts = λ n t h. ap suc h }

  from-Counts :
      (options : ProvisionOptions) (meta : ObjectMeta) (sc_params : GoMap Str)
      → Counts env (provision_from options meta sc_params)
  unfolding provision_from
  from-Counts options meta sc_params = if-Counts (is_read_only options) refused-Counts (
      bind-Counts (secret_for-Counts sc_params)
        (λ secret. with_policy-Counts options meta sc_params secret))

unselected {ℓ} :
    {A : Type ℓ} (n : ℕ) (selected : Bool) (m m' : M A) (env : Env) (t : Trace)
    → selected ≡ false
    → Counted n (m' env t)
    → Counted n ((if selected then m else m') env t)
unselected n true m m' env t e h = absurd (ground arith)
unselected n false m m' env t e h = h

-- Provision counts an error exactly when it fails, and once, but for a claim with a selector, whose
-- error is not counted.
pub provision-Counted :
    (options : ProvisionOptions) (env : Env) (t : Trace)
    → options.has_selector ≡ false
    → Counted (errors t) (provision options env t)
unfolding provision
provision-Counted options env t h =
    unselected (errors t) options.has_selector _ _ env t h
      ((from-Counts options _ _).counts (errors t) t refl)
