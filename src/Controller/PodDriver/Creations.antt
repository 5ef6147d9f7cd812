-- ===== src/Controller/PodDriver/Creations.antt =====
-- Which pods podErrorHandler and podPendingHandler of pkg/controller/pod_driver.go create.
use juicedata_juicefs_csi_dr.Prelude.{
  ℕ, zero, suc, ◌≡◌, refl, ap, inl, inr, true, false, Bool, Option, some, none, [], ◌∷◌, Str, arith,
  Bool-cases,
}
use juicedata_juicefs_csi_dr.Kube.{
  Pod, finalizer, Env, Trace, Event, got_pod, created_pod, slept, Err, not_found, Result, ok, err,
  diverged, M, ◌>>=◌, ◌>>◌, pure, lift, when, ask, sleep, continue, settle, get_pod, delete_pod,
  create_pod, patch_pod, is_not_found, attempt-known, not-diverged-ok, Keeps, bind-Keeps,
  attempt-Keeps, pure-Keeps, answer-Keeps, if-Keeps, with_lock-Keeps, continue-keeps, settle-keeps,
}
use juicedata_juicefs_csi_dr.Util.Pods.{
  remove_finalizer, is_pod_has_resource, delete_resource_of_pod, is_pod_resource_error,
}
use juicedata_juicefs_csi_dr.Util.Pods.Laws.{is_pod_has_resource-delete}
use juicedata_juicefs_csi_dr.Controller.PodDriver.Redeploy.{
  renewed, deletion_seen, wait_deleted, create_without_resources, redeploy, redeploy_if_short,
  pod_error_handler, pod_pending_handler,
}

-- The last answer is that the pod is not there.
abbrev pub EndsAbsent : Str → Str → Trace → Type 0
EndsAbsent name namespace t =
    (before : Trace) × (t ≡ got_pod name namespace (err not_found) ∷ before)

abbrev pub MayFollow : Event → Trace → Type 0
MayFollow (created_pod pod r) t =
    EndsAbsent pod.name pod.namespace t
    × (is_pod_has_resource pod ≡ false)
    × (pod.finalizers ≡ finalizer ∷ [])
MayFollow _ t = Unit {0}

-- Every pod is created directly after an answer that no pod has its name, without resource
-- requests, and with the finalizer.
unfoldable pub CreatesBare : Trace → Type 0
CreatesBare [] = Unit {0}
CreatesBare (e ∷ t) = MayFollow e t × CreatesBare t

is_not_found-lem : (e : Err) → is_not_found e ≡ true → e ≡ not_found
is_not_found-lem not_found h = refl
is_not_found-lem e h = absurd (cc)

deletion_seen-absent :
    (c : Option Err) (r : Result Pod) → deletion_seen c r ≡ some true → r ≡ err not_found
unfolding deletion_seen
deletion_seen-absent c (ok pod) h = absurd (cc)
deletion_seen-absent c (err e) h = elim (Bool-cases (is_not_found e)) [
  | inl absent ↦ ap err (is_not_found-lem e absent)
  | inr present ↦ absurd (ground arith)
]
deletion_seen-absent c diverged h = absurd (cc)

module _ {env : Env} where
  get-Keeps : (name namespace : Str) → Keeps env CreatesBare (get_pod name namespace)
  unfolding get_pod CreatesBare
  get-Keeps name namespace = record { kept = λ t h. (tt, h) }

  delete-Keeps : (pod : Pod) → Keeps env CreatesBare (delete_pod pod)
  unfolding delete_pod CreatesBare
  delete-Keeps pod = record { kept = λ t h. (tt, h) }

  remove_finalizer-Keeps : (pod : Pod) (f : Str) → Keeps env CreatesBare (remove_finalizer pod f)
  unfolding remove_finalizer patch_pod CreatesBare
  remove_finalizer-Keeps pod f = record { kept = λ t h. (tt, h) }

  sleep-Keeps : Keeps env CreatesBare sleep
  unfolding CreatesBare
  sleep-Keeps = record { kept = λ t h. (tt, h) }

-- What the wait for a deletion leaves behind.
abbrev Waited : Pod → Result Bool × Trace → Type 0
Waited pod x = CreatesBare x.1 × (x.0 ≡ ok true → EndsAbsent pod.name pod.namespace x.1)

round-Waited :
    (pod : Pod) (o : Option Bool) (r : Result Pod) (m : M Bool) (env : Env) (t : Trace)
    → CreatesBare t
    → (o ≡ some true → EndsAbsent pod.name pod.namespace t)
    → ((t' : Trace) → CreatesBare t' → Waited pod (m env t'))
    → Waited pod (
        (elim o as (λ _. M Bool) [
          | some deleted ↦ pure deleted
          | none ↦ elim r as (λ _. M Bool) [
            | ok found ↦ do sleep; m
            | err e ↦ m
            | diverged ↦ lift diverged
          ]
        ])
          env t)
unfolding CreatesBare
round-Waited pod (some true) r m env t h absent rest = (h, λ e. absent refl)
round-Waited pod (some false) r m env t h absent rest = (h, λ e. absurd (cc))
round-Waited pod none (ok found) m env t h absent rest = rest (slept ∷ t) (tt, h)
round-Waited pod none (err e) m env t h absent rest = rest t h
round-Waited pod none diverged m env t h absent rest = (h, λ e. absurd (cc))

abbrev after_answer : M Bool → Result Pod → M Bool
after_answer m r = do
  c ← ask (λ env t. env.context_error t)
  elim (deletion_seen c r) as (λ _. M Bool) [
    | some deleted ↦ pure deleted
    | none ↦ elim r as (λ _. M Bool) [
      | ok found ↦ do sleep; m
      | err e ↦ m
      | diverged ↦ lift diverged
    ]
  ]

first_round :
    (fuel : ℕ) (pod : Pod) (env : Env) (t : Trace)
    → let r = env.get_pod_reply t pod.name pod.namespace in
      wait_deleted (suc fuel) pod env t
      ≡ after_answer (wait_deleted fuel pod) r env (got_pod pod.name pod.namespace r ∷ t)
unfolding wait_deleted get_pod deletion_seen
first_round fuel pod env t =
    attempt-known (env.get_pod_reply t pod.name pod.namespace) _
      (after_answer (wait_deleted fuel pod)) env refl

seen-EndsAbsent :
    (c : Option Err) (r : Result Pod) (name namespace : Str) (t : Trace)
    → deletion_seen c r ≡ some true
    → EndsAbsent name namespace (got_pod name namespace r ∷ t)
seen-EndsAbsent c r name namespace t e = (t, rw (deletion_seen-absent c r e) refl)

wait_deleted-Waited :
    (fuel : ℕ) (pod : Pod) (env : Env) (t : Trace)
    → CreatesBare t
    → Waited pod (wait_deleted fuel pod env t)
unfolding CreatesBare
wait_deleted-Waited zero pod env t h = unfold wait_deleted in (h, λ e. absurd (not-diverged-ok e))
wait_deleted-Waited (suc fuel) pod env t h =
    let r = env.get_pod_reply t pod.name pod.namespace in
    let t' = got_pod pod.name pod.namespace r ∷ t in
    rw (first_round fuel pod env t) (
      round-Waited pod (deletion_seen (env.context_error t') r) r (wait_deleted fuel pod) env t'
        (tt, h) (seen-EndsAbsent (env.context_error t') r pod.name pod.namespace t)
        (wait_deleted-Waited fuel pod env))

created_bare :
    (pod : Pod) (env : Env) (t : Trace)
    → EndsAbsent pod.name pod.namespace t
    → CreatesBare t
    → CreatesBare (create_pod (delete_resource_of_pod (renewed pod)) env t).1
unfolding create_pod CreatesBare delete_resource_of_pod renewed
created_bare pod env t absent h = ((absent, is_pod_has_resource-delete (renewed pod), refl), h)

create_bare-kept :
    (pod : Pod) (env : Env) (t : Trace)
    → EndsAbsent pod.name pod.namespace t
    → CreatesBare t
    → CreatesBare (create_without_resources pod env t).1
unfolding create_without_resources
create_bare-kept pod env t absent h =
    continue-keeps {P = CreatesBare} (settle (create_pod bare env t)) _
      (settle-keeps CreatesBare (create_pod bare env t) (created_bare pod env t absent h))
      (λ _. pure-Keeps tt)
  where
    bare : Pod
    bare = delete_resource_of_pod (renewed pod)

after_wait :
    (pod : Pod) (env : Env) (x : Result Bool × Trace)
    → Waited pod x
    → CreatesBare (continue x (λ deleted. when deleted (create_without_resources pod)) env).1
after_wait pod env (ok true, t) (h, absent) = create_bare-kept pod env t (absent refl) h
after_wait pod env (ok false, t) (h, absent) = h
after_wait pod env (err e, t) (h, absent) = h
after_wait pod env (diverged, t) (h, absent) = h

module _ {env : Env} where
  redeploy-Keeps : (fuel : ℕ) (pod : Pod) → Keeps env CreatesBare (redeploy fuel pod)
  unfolding redeploy
  redeploy-Keeps fuel pod = bind-Keeps (attempt-Keeps (remove_finalizer-Keeps pod finalizer)) (λ _.
      bind-Keeps (attempt-Keeps (delete-Keeps pod)) (λ deletion.
        answer-Keeps deletion
          (λ u. record {
            kept = λ t h.
                after_wait pod env (wait_deleted fuel pod env t)
                  (wait_deleted-Waited fuel pod env t h);
          })
          (λ e. pure-Keeps tt)))

  redeploy_if_short-Keeps :
      (fuel : ℕ) (pod : Pod) → Keeps env CreatesBare (redeploy_if_short fuel pod)
  unfolding redeploy_if_short CreatesBare
  redeploy_if_short-Keeps fuel pod =
      with_lock-Keeps pod.name (λ t h. (tt, h)) (λ t h. (tt, h))
        (if-Keeps (is_pod_resource_error pod)
          (λ _.
            if-Keeps (is_pod_has_resource pod) (λ _. redeploy-Keeps fuel pod) (λ _. pure-Keeps tt))
          (λ _. pure-Keeps tt))

-- What the handlers of failed and of pending pods create: only pods whose name was just seen free,
-- without resource requests, and with the finalizer, whatever the answers to their calls.
pub handlers-CreatesBare :
    (fuel : ℕ) (pod : Option Pod) (env : Env) (t : Trace)
    → CreatesBare t
    → CreatesBare (pod_error_handler fuel pod env t).1
      × CreatesBare (pod_pending_handler fuel pod env t).1
unfolding pod_error_handler pod_pending_handler
handlers-CreatesBare fuel none env t h = (h, h)
handlers-CreatesBare fuel (some pod) env t h =
    ((redeploy_if_short-Keeps fuel pod).kept t h, (redeploy_if_short-Keeps fuel pod).kept t h)
