-- ===== src/Controller/PodDriver/Retired.antt =====
-- podDeletedHandler of pkg/controller/pod_driver.go for a mount pod to which nothing refers.
use juicedata_juicefs_csi_dr.Prelude.{
  ℕ, suc, ◌≡◌, refl, true, ◌∷◌, [], List, Str, GoMap, some, ◌∙◌, String, length, is_empty, arith,
  Option, none, contains_string,
}
use juicedata_juicefs_csi_dr.Kube.{
  Pod, Env, Trace, created_pod, ok, err, M, umount, patch_pod, cleanup_mount_point, Keeps,
  bind-Keeps, attempt-Keeps, note, started, if-Keeps, ask, pure-Keeps, unless-Keeps, finalizer,
  pure, Result, ◌>>=◌, diverged,
}
use juicedata_juicefs_csi_dr.Util.Pods.{
  remove_finalizer, get_ref, get_all_ref_keys, is_pod_resource_error, get_mount_path_of_pod,
}
use juicedata_juicefs_csi_dr.Util.Mounts.{umount_path}
use juicedata_juicefs_csi_dr.Controller.MountTable.{MountInfoTable}
use juicedata_juicefs_csi_dr.Controller.PodDriver.Deleted.{
  clean_up, settle_targets, at_mount_path, finalize, pod_deleted_handler,
}
use juicedata_juicefs_csi_dr.Util.Pods.Laws.{length-get_all_ref_keys}

-- The pods created so far.
unfoldable pub creations : Trace → ℕ
creations [] = 0
creations (created_pod pod r ∷ t) = suc (creations t)
creations (_ ∷ t) = creations t

-- `n` pods have been created.
unfoldable Created : ℕ → Trace → Type 0
Created n t = creations t ≡ n

module _ (n : ℕ) {env : Env} where
  umount_path-Keeps : (path : Str) → Keeps env (Created n) (umount_path path)
  unfolding umount_path umount creations Created
  umount_path-Keeps path = record { kept = λ t h. h }

  cleanup-Keeps : (path : Str) → Keeps env (Created n) (cleanup_mount_point path)
  unfolding cleanup_mount_point creations Created
  cleanup-Keeps path = record { kept = λ t h. h }

  started-Keeps :
      (routine : String) (name : Str) → Keeps env (Created n) (note (started routine name))
  unfolding creations Created
  started-Keeps routine name = record { kept = λ t h. h }

  remove_finalizer-Keeps : (pod : Pod) (f : Str) → Keeps env (Created n) (remove_finalizer pod f)
  unfolding remove_finalizer patch_pod creations Created
  remove_finalizer-Keeps pod f = record { kept = λ t h. h }

  clean_up-Keeps : (pod : Pod) (source : Str) → Keeps env (Created n) (clean_up pod source)
  unfolding clean_up
  clean_up-Keeps pod source = bind-Keeps (umount_path-Keeps source) (λ _.
      bind-Keeps (attempt-Keeps (cleanup-Keeps source))
        (λ _. started-Keeps "CleanUpCache" pod.name))

empty-is_empty : {A : Type 0} (xs : List A) → length xs ≡ 0 → is_empty xs ≡ true
empty-is_empty [] h = refl
empty-is_empty (x ∷ xs) h = absurd (ground arith)

no_keys :
    (hash : Str → Str) (pod : Pod)
    → get_ref hash pod ≡ 0
    → is_empty (get_all_ref_keys hash pod) ≡ true
no_keys hash pod h =
    empty-is_empty (get_all_ref_keys hash pod) (length-get_all_ref_keys hash pod ∙ h)

module _ (n : ℕ) {env : Env} where
  settle-Keeps :
      (fuel : ℕ) (mit : MountInfoTable) (pod : Pod) (source : Str) (targets : GoMap Str)
      → is_empty targets ≡ true
      → Keeps env (Created n) (settle_targets fuel mit pod source targets)
  unfolding settle_targets
  settle-Keeps fuel mit pod source targets e =
      if-Keeps (is_empty targets) (λ _. clean_up-Keeps n pod source) (λ e'. absurd (cc))

  annotated-Keeps :
      (fuel : ℕ) (mit : MountInfoTable) (pod : Pod) (source : Str) (o : Option (GoMap Str))
      → get_ref env.sha256_hex pod ≡ 0
      → Keeps env (Created n) (elim o as (λ _. M (Unit {0})) [
        | none ↦ pure tt
        | some annotations ↦ do
          hash ← ask (λ env t. env.sha256_hex)
          settle_targets fuel mit pod source (get_all_ref_keys hash pod)
      ])
  annotated-Keeps fuel mit pod source none h = pure-Keeps tt
  annotated-Keeps fuel mit pod source (some annotations) h = record {
    kept =
        (settle-Keeps fuel mit pod source (get_all_ref_keys env.sha256_hex pod)
          (no_keys env.sha256_hex pod h)).kept;
  }

  at_mount_path-Keeps :
      (fuel : ℕ) (mit : MountInfoTable) (pod : Pod) (r : Result (Str × Str))
      → get_ref env.sha256_hex pod ≡ 0
      → Keeps env (Created n) (at_mount_path fuel mit pod r)
  unfolding at_mount_path
  at_mount_path-Keeps fuel mit pod (ok (source, volume_id)) h =
      annotated-Keeps fuel mit pod source pod.annotations h
  at_mount_path-Keeps fuel mit pod (err e) h = pure-Keeps tt
  at_mount_path-Keeps fuel mit pod diverged h = record { kept = λ t p. p }

  finalize-Keeps :
      (fuel : ℕ) (mit : MountInfoTable) (pod : Pod)
      → get_ref env.sha256_hex pod ≡ 0
      → Keeps env (Created n) (finalize fuel mit pod)
  unfolding finalize
  finalize-Keeps fuel mit pod h = bind-Keeps (remove_finalizer-Keeps n pod finalizer) (λ _.
      bind-Keeps (started-Keeps n "checkMountPodStuck" pod.name) (λ _.
        unless-Keeps (is_pod_resource_error pod) tt
          (λ _. at_mount_path-Keeps fuel mit pod (get_mount_path_of_pod pod) h)))

  deleted-Keeps :
      (fuel : ℕ) (mit : MountInfoTable) (pod : Pod)
      → get_ref env.sha256_hex pod ≡ 0
      → Keeps env (Created n) (pod_deleted_handler fuel mit (some pod))
  unfolding pod_deleted_handler
  deleted-Keeps fuel mit pod h =
      if-Keeps (contains_string pod.finalizers finalizer) (λ _. finalize-Keeps fuel mit pod h)
        (λ _. pure-Keeps tt)

-- A deleted mount pod to which nothing refers is not deployed again: its handler creates no pod,
-- whatever the answers to its calls.
pub pod_deleted_handler-creations :
    (fuel : ℕ) (mit : MountInfoTable) (pod : Pod) (env : Env) (t : Trace)
    → get_ref env.sha256_hex pod ≡ 0
    → creations (pod_deleted_handler fuel mit (some pod) env t).1 ≡ creations t
unfolding Created
pod_deleted_handler-creations fuel mit pod env t h =
    (deleted-Keeps (creations t) {env = env} fuel mit pod h).kept t refl
