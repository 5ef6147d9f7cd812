-- ===== src/Util/Guarded.antt =====
-- Which histories delete only pods without references (GetAllRefKeys of pkg/util/pod.go), and that
-- ShouldDelay of pkg/util/util.go adds no deletion.
use juicedata_juicefs_csi_dr.Prelude.{
  ◌≡◌, refl, ap, inl, inr, arith, ◌∷◌, [], List, Bool, true, false, not, Option, none, some, Str,
  lookup, Option-cases,
}
use juicedata_juicefs_csi_dr.Kube.{
  Pod, Patch, Env, Trace, Event, got_pod, deleted_pod, Result, ok, err, diverged, when, M,
  annotations_of, get_pod, delete_pod, patch_pod, delete_secret, Keeps, bind-Keeps, continue,
  bind-ok, delete_delay_time_key, delete_delay_at_key,
}
use juicedata_juicefs_csi_dr.Util.Pods.{get_ref, add_pod_annotation, del_pod_annotation}
use juicedata_juicefs_csi_dr.Util.Delay.{
  should_delay, start_delay, delay_lasts, get_time_after_delay,
}

-- The last thing known of the pod is that nothing refers to it.
abbrev pub Unreferred : (Str → Str) → Str → Str → Trace → Type 0
Unreferred hash name namespace t =
    (pod : Pod) × (before : Trace) × (t ≡ got_pod name namespace (ok pod) ∷ before)
    × (get_ref hash pod ≡ 0)

abbrev pub Allows : (Str → Str) → Event → Trace → Type 0
Allows hash (deleted_pod name namespace r) t = Unreferred hash name namespace t
Allows hash _ t = Unit {0}

-- Every deletion of a pod comes directly after an answer of the API server that shows the pod
-- without references.
unfoldable pub IsGuarded : (Str → Str) → Trace → Type 0
IsGuarded hash [] = Unit {0}
IsGuarded hash (e ∷ t) = Allows hash e t × IsGuarded hash t

-- The API server answers with the pod that was asked for.
abbrev pub AnswersByName : Env → Type 0
AnswersByName env =
    (t : Trace) (name namespace : Str) (pod : Pod)
    → env.get_pod_reply t name namespace ≡ ok pod
    → (pod.name ≡ name) × (pod.namespace ≡ namespace)

module _ (hash : Str → Str) {env : Env} where
  pub get_pod-Keeps : (name namespace : Str) → Keeps env (IsGuarded hash) (get_pod name namespace)
  unfolding get_pod IsGuarded
  get_pod-Keeps name namespace = record { kept = λ t h. (tt, h) }

  pub patch_pod-Keeps : (pod : Pod) (p : Patch) → Keeps env (IsGuarded hash) (patch_pod pod p)
  unfolding patch_pod IsGuarded
  patch_pod-Keeps pod p = record { kept = λ t h. (tt, h) }

  pub delete_secret-Keeps :
      (name namespace : Str) → Keeps env (IsGuarded hash) (delete_secret name namespace)
  unfolding delete_secret IsGuarded
  delete_secret-Keeps name namespace = record { kept = λ t h. (tt, h) }

  pub del_pod_annotation-Keeps :
      (pod : Pod) (keys : List Str) → Keeps env (IsGuarded hash) (del_pod_annotation pod keys)
  unfolding del_pod_annotation
  del_pod_annotation-Keeps pod keys = patch_pod-Keeps pod _

  start_delay-Keeps : (pod : Pod) (d : Option Str) → Keeps env (IsGuarded hash) (start_delay pod d)
  unfolding start_delay add_pod_annotation
  start_delay-Keeps pod none = record { kept = λ t h. h }
  start_delay-Keeps pod (some d) =
      bind-Keeps (patch_pod-Keeps pod _) (λ u. record { kept = λ t h. h })

  pub should_delay-Keeps : (pod : Pod) → Keeps env (IsGuarded hash) (should_delay pod)
  unfolding should_delay get_time_after_delay delay_lasts
  should_delay-Keeps pod = elim (Option-cases (lookup delete_delay_time_key (annotations_of pod))) [
    | inl off ↦ rw (off, should_delay) (record { kept = λ t h. h })
    | inr (delay, on) ↦
        rw (on, should_delay)
          (elim (Option-cases (lookup delete_delay_at_key (annotations_of pod))) [
            | inl unset ↦ rw unset (
                bind-Keeps {m = get_time_after_delay delay} (record { kept = λ t h. h })
                  (start_delay-Keeps pod))
            | inr (at, set) ↦ rw set (record { kept = λ t h. h })
          ])
  ]

-- The deletion after such an answer.
pub delete_pod-IsGuarded :
    (env : Env) (hash : Str → Str) (pod : Pod) (t : Trace)
    → Unreferred hash pod.name pod.namespace t
    → IsGuarded hash t
    → IsGuarded hash (delete_pod pod env t).1
unfolding delete_pod IsGuarded
delete_pod-IsGuarded env hash pod t u h = (u, h)

start_delay-quiet :
    (pod : Pod) (d : Option Str) (env : Env) (t : Trace)
    → (start_delay pod d env t).0 ≡ ok false
    → (start_delay pod d env t).1 ≡ t
unfolding start_delay
start_delay-quiet pod none env t h = refl
start_delay-quiet pod (some d) env t h =
    let (u, got, rest) = bind-ok (add_pod_annotation pod _ env t) _ env false h in
    absurd (ground (arith, ap (λ p. p.0) rest))

-- A deletion is not delayed only where ShouldDelay has left the history as it was.
pub should_delay-quiet :
    (pod : Pod) (env : Env) (t : Trace)
    → (should_delay pod env t).0 ≡ ok false
    → (should_delay pod env t).1 ≡ t
unfolding should_delay get_time_after_delay delay_lasts
should_delay-quiet pod env t h =
    elim (Option-cases (lookup delete_delay_time_key (annotations_of pod))) [
      | inl off ↦ rw (off, should_delay)
      | inr (delay, on) ↦ elim (Option-cases (lookup delete_delay_at_key (annotations_of pod))) [
        | inl unset ↦
            rw (on, unset, should_delay)
              (start_delay-quiet pod _ env t (rw (on, unset, should_delay) at h))
        | inr (at, set) ↦ rw (on, set, should_delay)
      ]
    ]

after_delay :
    (env : Env) (hash : Str → Str) (m : M (Unit {0})) (t : Trace) (r : Result Bool × Trace)
    → (IsGuarded hash t → IsGuarded hash (m env t).1)
    → IsGuarded hash t
    → IsGuarded hash r.1
    → (r.0 ≡ ok false → r.1 ≡ t)
    → IsGuarded hash (continue r (λ delay. when (not delay) m) env).1
after_delay env hash m t (ok true, t') step h h' quiet = h'
after_delay env hash m t (ok false, t') step h h' quiet = rw (quiet refl) (step h)
after_delay env hash m t (err e, t') step h h' quiet = h'
after_delay env hash m t (diverged, t') step h h' quiet = h'

-- A program that runs unless the deletion is delayed starts from the history before ShouldDelay.
pub unless_delayed-IsGuarded :
    (env : Env) (hash : Str → Str) (pod : Pod) (m : M (Unit {0})) (t : Trace)
    → (IsGuarded hash t → IsGuarded hash (m env t).1)
    → IsGuarded hash t
    → IsGuarded hash (continue (should_delay pod env t) (λ delay. when (not delay) m) env).1
unless_delayed-IsGuarded env hash pod m t step h =
    after_delay env hash m t (should_delay pod env t) step h
      ((should_delay-Keeps hash pod).kept t h) (should_delay-quiet pod env t)
