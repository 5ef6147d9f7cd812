-- ===== src/Controller/Recycled.antt =====
-- The patches of the reconciler of pkg/controller/mount_controller.go.
use juicedata_juicefs_csi_dr.Prelude.{
  ℕ, suc, ◌≡◌, refl, ap, ◌⊎◌, inl, inr, Bool, true, false, not, List, [], ◌∷◌, Str, is_empty,
  contains_string, keep, if◌then◌else◌,
}
use juicedata_juicefs_csi_dr.Kube.{
  Pod, finalizer, Env, Trace, got_pod, listed_pods, patched_pod, replace_finalizers, Err, Result,
  ok, err, diverged, M, continue, pure, fail, lift, get_pod, list_pod, patch_pod, is_not_found,
  attempt-known,
}
use juicedata_juicefs_csi_dr.Util.Pods.{remove_finalizer}
use juicedata_juicefs_csi_dr.Util.Pods.Laws.{remove_finalizer-keep, differs_from}
use juicedata_juicefs_csi_dr.Controller.Recycling.{
  csi_query, list_csi_pods, release_finalizer, reconcile_mount,
}

-- The patches of pods so far.
unfoldable pub patches : Trace → ℕ
patches [] = 0
patches (patched_pod name namespace p r ∷ t) = suc (patches t)
patches (_ ∷ t) = patches t

-- The finalizer of the pod was removed, right after the answer that the driver has no pod on its
-- node.
pub record Released (mount_namespace : Str) (pod : Pod) (t t' : Trace) : Type 0 where
  pub deleting : pod.deleting ≡ true
  pub held : contains_string pod.finalizers finalizer ≡ true
  pub answer : Result (Unit {0})
  pub history :
      t'
      ≡ patched_pod pod.name pod.namespace
          (replace_finalizers (keep (differs_from finalizer) pod.finalizers))
          answer
        ∷ listed_pods (csi_query mount_namespace pod.node_name) (ok [])
        ∷ t

-- Nothing was patched, or the pod of the answer was released.
abbrev pub MayRelease : Str → Str → Str → Trace → Trace → Type 0
MayRelease mount_namespace name namespace t t' =
    (patches t' ≡ patches t)
    ⊎ ((pod : Pod) × Released mount_namespace pod (got_pod name namespace (ok pod) ∷ t) t')

patch-history :
    (pod : Pod) (env : Env) (t : Trace)
    → (answer : Result (Unit {0})) × ((remove_finalizer pod finalizer env t).1
        ≡ patched_pod pod.name pod.namespace
            (replace_finalizers (keep (differs_from finalizer) pod.finalizers))
            answer
          ∷ t)
unfolding patch_pod
patch-history pod env t = (_, ap (λ m. (m env t).1) (remove_finalizer-keep pod finalizer))

listed-MayRelease :
    (r : Result (List Pod)) (pod : Pod) (name namespace : Str) (env : Env) (t : Trace)
    → pod.deleting ≡ true
    → contains_string pod.finalizers finalizer ≡ true
    → MayRelease env.mount_namespace name namespace t
        (continue
          (
            r,
            listed_pods (csi_query env.mount_namespace pod.node_name) r
                ∷ got_pod name namespace (ok pod)
                ∷ t,
          )
          (λ csi_pods. if is_empty csi_pods then remove_finalizer pod finalizer else pure tt)
          env).1
unfolding patches
listed-MayRelease (ok []) pod name namespace env t dying held =
    let (answer, history) = patch-history pod env (
      listed_pods (csi_query env.mount_namespace pod.node_name) (ok [])
      ∷ got_pod name namespace (ok pod)
      ∷ t) in
    inr (pod, record { deleting = dying; held = held; answer = answer; history = history })
listed-MayRelease (ok (p ∷ ps)) pod name namespace env t dying held = inl refl
listed-MayRelease (err e) pod name namespace env t dying held = inl refl
listed-MayRelease diverged pod name namespace env t dying held = inl refl

release-MayRelease :
    (pod : Pod) (name namespace : Str) (env : Env) (t : Trace)
    → pod.deleting ≡ true
    → contains_string pod.finalizers finalizer ≡ true
    → MayRelease env.mount_namespace name namespace t
        (release_finalizer pod env (got_pod name namespace (ok pod) ∷ t)).1
unfolding release_finalizer list_csi_pods list_pod
release-MayRelease pod name namespace env t dying held =
    listed-MayRelease (env.list_pods_reply _ _) pod name namespace env t dying held

-- What is done with the answer.
abbrev on_mount : Result Pod → M (Unit {0})
on_mount r = elim r [
  | ok mount_pod ↦
      if not mount_pod.deleting
      then pure tt
      else if not (contains_string mount_pod.finalizers finalizer)
      then pure tt
      else release_finalizer mount_pod
  | err e ↦ if is_not_found e then pure tt else fail e
  | diverged ↦ lift diverged
]

found-MayRelease :
    (dying held : Bool) (pod : Pod) (name namespace : Str) (env : Env) (t : Trace)
    → pod.deleting ≡ dying
    → contains_string pod.finalizers finalizer ≡ held
    → MayRelease env.mount_namespace name namespace t
        ((if not dying
            then pure (tt {0})
            else if not held
            then pure (tt {0})
            else release_finalizer pod)
          env
          (got_pod name namespace (ok pod) ∷ t)).1
unfolding patches
found-MayRelease false held pod name namespace env t d h = inl refl
found-MayRelease true false pod name namespace env t d h = inl refl
found-MayRelease true true pod name namespace env t d h =
    release-MayRelease pod name namespace env t d h

missing-MayRelease :
    (absent : Bool) (e : Err) (name namespace mount_namespace : Str) (env : Env) (t : Trace)
    → MayRelease mount_namespace name namespace t
        ((if absent then pure (tt {0}) else fail {A = Unit {0}} e) env
          (got_pod name namespace (err e) ∷ t)).1
unfolding patches
missing-MayRelease true e name namespace mount_namespace env t = inl refl
missing-MayRelease false e name namespace mount_namespace env t = inl refl

answer-MayRelease :
    (r : Result Pod) (name namespace : Str) (env : Env) (t : Trace)
    → MayRelease env.mount_namespace name namespace t
        (on_mount r env (got_pod name namespace r ∷ t)).1
unfolding patches
answer-MayRelease (ok pod) name namespace env t =
    found-MayRelease pod.deleting _ pod name namespace env t refl refl
answer-MayRelease (err e) name namespace env t =
    missing-MayRelease (is_not_found e) e name namespace env.mount_namespace env t
answer-MayRelease diverged name namespace env t = inl refl

-- The mount controller patches nothing, or it removes the driver's finalizer, and no other, from a
-- pod that is being deleted and has it, right after the answer that no pod of the driver runs on
-- the node of that pod.
pub reconcile_mount-MayRelease :
    (name namespace : Str) (env : Env) (t : Trace)
    → MayRelease env.mount_namespace name namespace t (reconcile_mount name namespace env t).1
unfolding reconcile_mount get_pod
reconcile_mount-MayRelease name namespace env t =
    rw
      (attempt-known (env.get_pod_reply t name namespace)
        (got_pod name namespace (env.get_pod_reply t name namespace) ∷ t) on_mount env refl)
      (answer-MayRelease (env.get_pod_reply t name namespace) name namespace env t)
