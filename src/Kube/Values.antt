-- ===== src/Kube/Values.antt =====
-- What the value of a program of the model is like, where it has one.
use juicedata_juicefs_csi_dr.Prelude.{
  ◌≡◌, refl, sym, ap, ◌∙◌, true, false, Bool, if◌then◌else◌, subst,
}
use juicedata_juicefs_csi_dr.Kube.Effects.{
  Env, Trace, Err, Result, ok, err, diverged, M, ◌>>=◌, continue, pure, lift, bind-ok,
  not-diverged-ok, fail, not-err-ok, settle, attempt,
}
use juicedata_juicefs_csi_dr.Kube.Invariants.{Keeps}

-- In the environment `env`, the program `m` gives values that are `Q`.
pub record Yields {ℓ} (env : Env) {A : Type ℓ} (Q : A → Type 0) (m : M A) : Type ℓ where
  pub yields : (t : Trace) (a : A) → (m env t).0 ≡ ok a → Q a

pub ok-injective {ℓ} : {A : Type ℓ} {a b : A} → ok a ≡ ok b → a ≡ b
ok-injective e = cc

ok-value {ℓ} : {A : Type ℓ} (Q : A → Type 0) (a b : A) → Q a → ok a ≡ ok b → Q b
ok-value Q a b q e = subst Q (ok-injective e) q

module _ {ℓ} {env : Env} {A : Type ℓ} {Q : A → Type 0} where
  pub pure-Yields : (a : A) → Q a → Yields env Q (pure a)
  pure-Yields a q = record { yields = λ t b e. ok-value Q a b q e }

  pub bind-Yields {κ} :
      {B : Type κ} (m : M B) {f : B → M A} → ((b : B) → Yields env Q (f b)) → Yields env Q (m >>= f)
  bind-Yields m {f} h = record {
    yields = λ t a e.
        let (b, got, rest) = bind-ok (m env t) f env a e in
        (h b).yields (m env t).1 a (ap (λ x. x.0) (sym rest) ∙ e);
  }

  -- The second part may rest on what the first one gives.
  pub from-Yields {κ} :
      {B : Type κ} {R : B → Type 0} {m : M B} {f : B → M A}
      → Yields env R m
      → ((b : B) → R b → Yields env Q (f b))
      → Yields env Q (m >>= f)
  from-Yields {m = m} {f = f} y h = record {
    yields = λ t a e.
        let (b, got, rest) = bind-ok (m env t) f env a e in
        (h b (y.yields t b got)).yields (m env t).1 a (ap (λ x. x.0) (sym rest) ∙ e);
  }

  pub fail-Yields : (e : Err) → Yields env Q (fail {A = A} e)
  fail-Yields e = record { yields = λ t a h. absurd (not-err-ok h) }

  pub if-Yields :
      (b : Bool) {m n : M A} → Yields env Q m → Yields env Q n → Yields env Q (if b then m else n)
  if-Yields true h k = h
  if-Yields false h k = k

  pub answer-Yields {κ} :
      {B : Type κ} (r : Result B) {f : B → M A} {g : Err → M A}
      → ((b : B) → Yields env Q (f b))
      → ((e : Err) → Yields env Q (g e))
      → Yields env Q (elim r [ ok b ↦ f b | err e ↦ g e | diverged ↦ lift diverged ])
  answer-Yields (ok b) h k = h b
  answer-Yields (err e) h k = k e
  answer-Yields diverged h k = record { yields = λ t a e. absurd (not-diverged-ok e) }

-- What follows a program may rest on what it gives.
yielded {ℓ κ} :
    {env : Env} {P : Trace → Type 0} {A : Type ℓ} {B : Type κ} {Q : A → Type 0}
    (r : Result A × Trace) (f : A → M B)
    → P r.1
    → ((a : A) → r.0 ≡ ok a → Q a)
    → ((a : A) → Q a → Keeps env P (f a))
    → P (continue r f env).1
yielded (ok a, t) f p q k = (k a (q a refl)).kept t p
yielded (err e, t) f p q k = p
yielded (diverged, t) f p q k = p

pub bind_yield-Keeps {ℓ κ} :
    {env : Env} {P : Trace → Type 0} {A : Type ℓ} {B : Type κ} {Q : A → Type 0} {m : M A}
    {f : A → M B}
    → Keeps env P m
    → Yields env Q m
    → ((a : A) → Q a → Keeps env P (f a))
    → Keeps env P (m >>= f)
bind_yield-Keeps {env = env} {m = m} {f = f} h y k = record {
  kept = λ t p. yielded (m env t) f (h.kept t p) (λ a e. y.yields t a e) k;
}

settled :
    {A : Type 0} (answer : Result A × Trace) (r : Result A)
    → (settle answer).0 ≡ ok r
    → (a : A) → r ≡ ok a
    → answer.0 ≡ ok a
settled (ok a', t) r e a known = cc
settled (err x, t) r e a known = cc
settled (diverged, t) r e a known = cc

-- A value of an attempt is one that the program gives.
pub attempt-Yields :
    {env : Env} {A : Type 0} (m : M A)
    → Yields env (λ r. (a : A) → r ≡ ok a → (t : Trace) × ((m env t).0 ≡ ok a)) (attempt m)
attempt-Yields {env} m = record { yields = λ t r e a known. (t, settled (m env t) r e a known) }
