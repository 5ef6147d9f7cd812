-- ===== src/Kube/Invariants.antt =====
-- What a program of the model keeps true of the history, put together from what its parts keep.
use juicedata_juicefs_csi_dr.Prelude.{
  ℕ, zero, suc, ◌≡◌, refl, ◌∷◌, Bool, true, false, Str, if◌then◌else◌,
}
use juicedata_juicefs_csi_dr.Kube.Effects.{
  Env, Trace, locked, unlocked, Err, is_not_found, pure, fail, ask, Result, ok, err, diverged, M,
  ◌>>=◌, continue, settle, attempt, lift, when, is_conflict,
}
use juicedata_juicefs_csi_dr.Kube.Calls.{with_lock, retry_steps, retry_on_conflict}

-- In the environment `env`, the program `m` keeps `P`.
pub record Keeps {ℓ} (env : Env) (P : Trace → Type 0) {A : Type ℓ} (m : M A) : Type 0 where
  pub kept : (t : Trace) → P t → P (m env t).1

pub continue-keeps {ℓ κ} :
    {env : Env} {P : Trace → Type 0} {A : Type ℓ} {B : Type κ} (r : Result A × Trace) (f : A → M B)
    → P r.1
    → ((a : A) → Keeps env P (f a))
    → P (continue r f env).1
continue-keeps (ok a, t) f h k = (k a).kept t h
continue-keeps (err e, t) f h k = h
continue-keeps (diverged, t) f h k = h

pub settle-keeps {ℓ} :
    (P : Trace → Type 0) {A : Type ℓ} (r : Result A × Trace) → P r.1 → P (settle r).1
settle-keeps P (ok a, t) h = h
settle-keeps P (err e, t) h = h
settle-keeps P (diverged, t) h = h

module _ {env : Env} {P : Trace → Type 0} where
  pub bind-Keeps {ℓ κ} :
      {A : Type ℓ} {B : Type κ} {m : M A} {f : A → M B}
      → Keeps env P m
      → ((a : A) → Keeps env P (f a))
      → Keeps env P (m >>= f)
  bind-Keeps {m} {f} h k = record { kept = λ t p. continue-keeps (m env t) f (h.kept t p) k }

  pub pure-Keeps {ℓ} : {A : Type ℓ} (a : A) → Keeps env P (pure a)
  pure-Keeps a = record { kept = λ t p. p }

  pub fail-Keeps {ℓ} : {A : Type ℓ} (e : Err) → Keeps env P (fail {A = A} e)
  fail-Keeps e = record { kept = λ t p. p }

  pub ask-Keeps {ℓ} : {A : Type ℓ} (f : Env → Trace → A) → Keeps env P (ask f)
  ask-Keeps f = record { kept = λ t p. p }

  pub attempt-Keeps {ℓ} : {A : Type ℓ} {m : M A} → Keeps env P m → Keeps env P (attempt m)
  attempt-Keeps {m} h = record { kept = λ t p. settle-keeps P (m env t) (h.kept t p) }

  pub if-Keeps {ℓ} :
      {A : Type ℓ} (b : Bool) {m n : M A}
      → (b ≡ true → Keeps env P m)
      → (b ≡ false → Keeps env P n)
      → Keeps env P (if b then m else n)
  if-Keeps true h k = h refl
  if-Keeps false h k = k refl

  pub answer-Keeps {ℓ κ} :
      {A : Type ℓ} {B : Type κ} (r : Result A) {f : A → M B} {g : Err → M B}
      → ((a : A) → Keeps env P (f a))
      → ((e : Err) → Keeps env P (g e))
      → Keeps env P (elim r [ ok a ↦ f a | err e ↦ g e | diverged ↦ lift diverged ])
  answer-Keeps (ok a) h k = h a
  answer-Keeps (err e) h k = k e
  answer-Keeps diverged h k = record { kept = λ t p. p }

  -- Where the code goes on from the one error "not found" only.
  pub or_absent-Keeps {ℓ κ} :
      {A : Type ℓ} {B : Type κ} (r : Result A) (absent : B) {f : A → M B}
      → ((a : A) → Keeps env P (f a))
      → Keeps env P (elim r [
        | ok a ↦ f a
        | err e ↦ if is_not_found e then pure absent else fail e
        | diverged ↦ lift diverged
      ])
  or_absent-Keeps r absent h =
      answer-Keeps r h (λ e. if-Keeps (is_not_found e) (λ _. pure-Keeps absent) (λ _. fail-Keeps e))

  pub unless-Keeps {ℓ} :
      {A : Type ℓ} (b : Bool) (a : A) {m : M A}
      → (b ≡ false → Keeps env P m)
      → Keeps env P (if b then pure a else m)
  unless-Keeps b a {m} h = if-Keeps b (λ _. pure-Keeps a) h

  pub when-Keeps :
      (b : Bool) {m : M (Unit {0})} → (b ≡ true → Keeps env P m) → Keeps env P (when b m)
  when-Keeps true {m} h = record { kept = λ t p. (h refl).kept t p }
  when-Keeps false {m} h = record { kept = λ t p. p }

  pub with_lock-Keeps {ℓ} :
      {A : Type ℓ} (name : Str) {m : M A}
      → ((t : Trace) → P t → P (locked name ∷ t))
      → ((t : Trace) → P t → P (unlocked name ∷ t))
      → Keeps env P m
      → Keeps env P (with_lock name m)
  unfolding with_lock
  with_lock-Keeps name {m} begins ends h = record { kept = λ t p. ends _ (h.kept _ (begins t p)) }

  again-Keeps {ℓ} :
      {A : Type ℓ} (b : Bool) {m : M A} (r : Result A)
      → Keeps env P m
      → Keeps env P (elim b [ true ↦ m | false ↦ lift r ])
  again-Keeps true r h = h
  again-Keeps false r h = record { kept = λ t p. p }

  pub retry_steps-Keeps {ℓ} :
      {A : Type ℓ} (n : ℕ) {m : M A} → Keeps env P m → Keeps env P (retry_steps n m)
  unfolding retry_steps
  retry_steps-Keeps zero {m} h = record { kept = λ t p. p }
  retry_steps-Keeps (suc zero) {m} h = record { kept = λ t p. h.kept t p }
  retry_steps-Keeps (suc (suc n)) {m} h =
      bind-Keeps (attempt-Keeps h)
        (λ r. again-Keeps (is_conflict r) r (retry_steps-Keeps (suc n) h))

  pub retry_on_conflict-Keeps {ℓ} :
      {A : Type ℓ} {m : M A} → Keeps env P m → Keeps env P (retry_on_conflict m)
  unfolding retry_on_conflict
  retry_on_conflict-Keeps h = record { kept = (retry_steps-Keeps env.backoff_steps h).kept }
