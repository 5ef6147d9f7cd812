-- ===== src/Driver/Statuses.antt =====
-- A call whose error is replaced by a status, in pkg/driver.
use juicedata_juicefs_csi_dr.Prelude.{◌≡◌, refl}
use juicedata_juicefs_csi_dr.Kube.{
  Env, Trace, Err, Result, ok, err, diverged, M, continue, not-err-ok, not-diverged-ok,
}
use juicedata_juicefs_csi_dr.Driver.Controller.Expand.{or_status}

status_then {ℓ κ} :
    {A : Type ℓ} {B : Type κ} (e : Err) (r : Result A × Trace) (f : A → M B) (env : Env) (t : Trace)
    (b : B)
    → (continue (or_status e (λ _ _. r) env t) f env).0 ≡ ok b
    → (a : A) × (r ≡ (ok a, r.1)) × ((f a env r.1).0 ≡ ok b)
unfolding or_status
status_then e (ok a, t') f env t b h = (a, refl, h)
status_then e (err e', t') f env t b h = absurd (not-err-ok h)
status_then e (diverged, t') f env t b h = absurd (not-diverged-ok h)

-- It and what follows it succeed only where the call does.
pub or_status_then {ℓ κ} :
    {A : Type ℓ} {B : Type κ} (e : Err) (m : M A) (f : A → M B) (env : Env) (t : Trace) (b : B)
    → (continue (or_status e m env t) f env).0 ≡ ok b
    → (a : A) × (m env t ≡ (ok a, (m env t).1)) × ((f a env (m env t).1).0 ≡ ok b)
unfolding or_status
or_status_then e m f env t b h = status_then e (m env t) f env t b h
