-- ===== src/Controller/Queued.antt =====
-- When an app pod is queued: ShouldInQueue of pkg/controller/app_controller.go.
use juicedata_juicefs_csi_dr.Prelude.{
  ℕ, zero, suc, ◌≡◌, ◌≢◌, ◌↔◌, refl, ap, inl, inr, Bool, true, false, Option, none, some, List, [],
  ◌∷◌, Str, lit, str_eq, str_eq_iff, any, length, get_elem?, GoMap, lookup, Bool-cases, get_or_else,
  ◌≤◌, arith, subst,
}
use juicedata_juicefs_csi_dr.Util.Names.{check_expect_value}
use juicedata_juicefs_csi_dr.Controller.AppQueue.{
  AppPod, AppContainer, SidecarStatus, inject_sidecar_disable, is_sidecar, all_settled,
  should_in_queue,
}

-- A client still runs; a container of the app has ended.
pub record Settled (s : SidecarStatus) : Type 0 where
  pub client : is_sidecar s.name ≡ true → s.running ≡ true
  pub app : is_sidecar s.name ≡ false → s.terminated ≡ true

pub record InQueue (pod : AppPod) : Type 0 where
  pub enabled : lookup inject_sidecar_disable pod.labels ≢ some (lit "true")
  pub ends : pod.restart_policy ≢ lit "Always"
  pub sidecar :
      (i : ℕ) × (c : AppContainer) × (get_elem? pod.containers i ≡ some c)
      × (is_sidecar c.name ≡ true)
  pub running : pod.phase ≡ lit "Running"
  pub two : 2 ≤ length pod.statuses
  pub settled : (i : ℕ) (s : SidecarStatus) → get_elem? pod.statuses i ≡ some s → Settled s

pub value_is_iff :
    (o : Option Str) (v : Str)
    → (elim o [ none ↦ false | some w ↦ str_eq w v ] ≡ true) ↔ (o ≡ some v)
value_is_iff none v = ground arith
value_is_iff (some w) v = ground (arith, str_eq_iff w v)

check_expect_value_iff :
    (m : GoMap Str) (key v : Str) → (check_expect_value m key v ≡ true) ↔ (lookup key m ≡ some v)
unfolding check_expect_value lookup
check_expect_value_iff m key v = value_is_iff (lookup key m) v

any→member {ℓ} :
    {A : Type ℓ} (p : A → Bool) (xs : List A)
    → any p xs ≡ true
    → (i : ℕ) × (x : A) × (get_elem? xs i ≡ some x) × (p x ≡ true)
unfolding any
any→member p [] h = ground arith
any→member p (x ∷ xs) h = elim (Bool-cases (p x)) [
  | inl passes ↦ (0, x, refl, passes)
  | inr fails ↦
      let (i, y, found, passes) = any→member p xs (ground arith) in (suc i, y, found, passes)
]

member→any {ℓ} :
    {A : Type ℓ} (p : A → Bool) (xs : List A) (i : ℕ) (x : A)
    → get_elem? xs i ≡ some x
    → p x ≡ true
    → any p xs ≡ true
unfolding any
member→any p [] i x found passes = ground arith
member→any p (y ∷ xs) zero x found passes = ground arith
member→any p (y ∷ xs) (suc i) x found passes =
    let rest = member→any p xs i x found passes in ground arith

all_settled-Settled :
    (l : List SidecarStatus)
    → all_settled l ≡ true
    → (i : ℕ) (s : SidecarStatus) → get_elem? l i ≡ some s
    → Settled s
unfolding all_settled
all_settled-Settled [] h i s found = absurd (cc)
all_settled-Settled (x ∷ l) h zero s found =
    subst Settled (ap (get_or_else x) found)
      record { client = λ e. ground arith; app = λ e. ground arith }
all_settled-Settled (x ∷ l) h (suc i) s found = all_settled-Settled l (ground arith) i s found

all_settled-eq-true :
    (l : List SidecarStatus)
    → ((i : ℕ) (s : SidecarStatus) → get_elem? l i ≡ some s → Settled s)
    → all_settled l ≡ true
unfolding all_settled
all_settled-eq-true [] h = refl
all_settled-eq-true (x ∷ l) h =
    let rest = all_settled-eq-true l (λ i. h (suc i)) in
    let client = (h 0 x refl).client in let app = (h 0 x refl).app in ground arith

-- ShouldInQueue takes exactly the pods whose sidecar injection is not disabled, that do not restart
-- always, run, have a sidecar among their containers and at least two container states, in which
-- all clients run and all other containers have ended, with any exit code.
pub should_in_queue_iff : (pod : AppPod) → (should_in_queue (some pod) ≡ true) ↔ InQueue pod
unfolding should_in_queue
should_in_queue_iff pod = (
  (λ queued. record {
    enabled =
        λ e. ground (arith, check_expect_value_iff pod.labels inject_sidecar_disable (lit "true"));
    ends = λ e. ground (arith, str_eq_iff pod.restart_policy (lit "Always"));
    sidecar = any→member (λ c. is_sidecar c.name) pod.containers (ground arith);
    running = ground (arith, str_eq_iff pod.phase (lit "Running"));
    two = ground arith;
    settled = all_settled-Settled pod.statuses (ground arith);
  }),
  (λ q.
      let (i, name, found, passes) = q.sidecar in
      let has = member→any (λ c. is_sidecar c.name) pod.containers i name found passes in
      let settled = all_settled-eq-true pod.statuses q.settled in
      let enabled = q.enabled in
      let ends = q.ends in
      let running = q.running in
      let two = q.two in
      ground (
        arith,
        check_expect_value_iff pod.labels inject_sidecar_disable (lit "true"),
        str_eq_iff pod.restart_policy (lit "Always"),
        str_eq_iff pod.phase (lit "Running"),
      )),
)
