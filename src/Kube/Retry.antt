-- ===== src/Kube/Retry.antt =====
-- retry.RetryOnConflict: a run that succeeds is one run of the function.
use juicedata_juicefs_csi_dr.Prelude.{
  ℕ, zero, suc, ◌≡◌, refl, ap, ◌∙◌, sym, inl, inr, true, false, Bool, Bool-cases, if◌then◌else◌,
}
use juicedata_juicefs_csi_dr.Kube.Effects.{
  Env, Trace, Result, ok, err, diverged, M, settle, lift, continue, is_conflict, not-err-ok,
}
use juicedata_juicefs_csi_dr.Kube.Calls.{retry_steps, retry_on_conflict}

branch {ℓ} :
    {A : Type ℓ} (b : Bool) (rest : M A) (x : Result A) (env : Env) (t : Trace)
    → (elim b as (λ _. M A) [ true ↦ rest | false ↦ lift x ]) env t
      ≡ (if b then rest env t else (x, t))
branch true rest x env t = refl
branch false rest x env t = refl

step {ℓ} :
    {A : Type ℓ} (rest : M A) (env : Env) (r : Result A × Trace)
    → continue (settle r) (λ x. elim (is_conflict x) [ true ↦ rest | false ↦ lift x ]) env
      ≡ (if is_conflict r.0 then rest env r.1 else r)
step rest env (ok b, t) = refl
step rest env (diverged, t) = refl
step {A} rest env (err e, t) = branch (is_conflict {A = A} (err e)) rest (err e) env t

pub retry_steps-last {ℓ} :
    {A : Type ℓ} (n : ℕ) (fn : M A) (env : Env) (t : Trace) (a : A)
    → (retry_steps n fn env t).0 ≡ ok a
    → (t' : Trace) × (retry_steps n fn env t ≡ fn env t')
unfolding retry_steps
retry_steps-last zero fn env t a h = absurd (not-err-ok h)
retry_steps-last (suc zero) fn env t a h = (t, refl)
retry_steps-last (suc (suc n)) fn env t a h =
    let eq = step (retry_steps (suc n) fn) env (fn env t) in
    elim (Bool-cases (is_conflict (fn env t).0)) [
      | inl again ↦
          let here = rw again at eq in
          let (t', last) =
            retry_steps-last (suc n) fn env (fn env t).1 a (ap (λ p. p.0) (sym here) ∙ h) in
          (t', here ∙ last)
      | inr over ↦ (t, rw over at eq)
    ]

pub retry_on_conflict-last {ℓ} :
    {A : Type ℓ} (fn : M A) (env : Env) (t : Trace) (a : A)
    → (retry_on_conflict fn env t).0 ≡ ok a
    → (t' : Trace) × (retry_on_conflict fn env t ≡ fn env t')
unfolding retry_on_conflict
retry_on_conflict-last fn env t a h = retry_steps-last env.backoff_steps fn env t a h
