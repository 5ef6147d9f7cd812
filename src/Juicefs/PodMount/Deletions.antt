-- ===== src/Juicefs/PodMount/Deletions.antt =====
-- Which mount pods JUmount of pkg/juicefs/mount/pod_mount.go deletes.
use juicedata_juicefs_csi_dr.Prelude.{
  ◌≡◌, refl, ◌∷◌, inl, inr, Str, ◌==◌, ==_iff, Bool-cases, if◌then◌else◌,
}
use juicedata_juicefs_csi_dr.Kube.{
  Pod, Env, Trace, got_pod, Result, ok, err, diverged, M, pure, fail, lift, when, is_not_found,
  get_pod, delete_pod, Keeps, bind-Keeps, attempt-Keeps, continue-keeps, retry_on_conflict-Keeps,
  attempt-known,
}
use juicedata_juicefs_csi_dr.Util.Pods.{get_ref}
use juicedata_juicefs_csi_dr.Util.Guarded.{
  Unreferred, IsGuarded, AnswersByName, delete_secret-Keeps, delete_pod-IsGuarded,
  unless_delayed-IsGuarded,
}
use juicedata_juicefs_csi_dr.Juicefs.PodMount.Refs.{
  delete_mount_pod, delete_unless_delayed, umount_once, j_umount,
}

delete_mount_pod-IsGuarded :
    (env : Env) (hash : Str → Str) (po : Pod) (t : Trace)
    → Unreferred hash po.name po.namespace t
    → IsGuarded hash t
    → IsGuarded hash (delete_mount_pod po env t).1
unfolding delete_mount_pod
delete_mount_pod-IsGuarded env hash po t u h =
    continue-keeps {P = IsGuarded hash} (delete_pod po env t) _
      (delete_pod-IsGuarded env hash po t u h)
      (λ _.
        bind-Keeps (attempt-Keeps (delete_secret-Keeps hash _ _)) (λ _. record { kept = λ t h. h }))

delete_unless_delayed-IsGuarded :
    (env : Env) (hash : Str → Str) (po : Pod) (t : Trace)
    → Unreferred hash po.name po.namespace t
    → IsGuarded hash t
    → IsGuarded hash (delete_unless_delayed po env t).1
unfolding delete_unless_delayed
delete_unless_delayed-IsGuarded env hash po t u h =
    unless_delayed-IsGuarded env hash po (delete_mount_pod po) t
      (delete_mount_pod-IsGuarded env hash po t u) h

-- What JUmount does with the answer of the API server.
abbrev pub on_answer : (Str → Str) → Result Pod → M (Unit {0})
on_answer hash (ok po) = when (get_ref hash po == 0) (delete_unless_delayed po)
on_answer hash (err e) = if is_not_found e then pure tt else fail e
on_answer hash diverged = lift diverged

umount_once-answer :
    (pod_name : Str) (env : Env) (t : Trace)
    → umount_once pod_name env t
      ≡ on_answer env.sha256_hex (env.get_pod_reply t pod_name env.mount_namespace) env (
          got_pod pod_name env.mount_namespace (env.get_pod_reply t pod_name env.mount_namespace)
          ∷ t)
unfolding umount_once get_pod
umount_once-answer pod_name env t =
    attempt-known (env.get_pod_reply t pod_name env.mount_namespace) _ (on_answer env.sha256_hex)
      env refl

on_answer-IsGuarded :
    (env : Env) (pod_name : Str) (t : Trace) (r : Result Pod)
    → AnswersByName env
    → env.get_pod_reply t pod_name env.mount_namespace ≡ r
    → IsGuarded env.sha256_hex t
    → IsGuarded env.sha256_hex
        (on_answer env.sha256_hex r env (got_pod pod_name env.mount_namespace r ∷ t)).1
unfolding IsGuarded
on_answer-IsGuarded env pod_name t (ok po) named e h =
    let (same_name, same_namespace) = named t pod_name env.mount_namespace po e in
    elim (Bool-cases (get_ref env.sha256_hex po == 0)) [
      | inl none_left ↦ rw none_left (
          delete_unless_delayed-IsGuarded env env.sha256_hex po _
            (po, t, rw (same_name, same_namespace), (==_iff _ 0).0 none_left) (tt, h))
      | inr referred ↦ rw referred (tt, h)
    ]
on_answer-IsGuarded env pod_name t (err e') named e h = elim (Bool-cases (is_not_found e')) [
  | inl absent ↦ rw absent (tt, h)
  | inr failed ↦ rw failed (tt, h)
]
on_answer-IsGuarded env pod_name t diverged named e h = (tt, h)

pub j_umount-Keeps :
    (env : Env) (pod_name : Str)
    → AnswersByName env
    → Keeps env (IsGuarded env.sha256_hex) (j_umount pod_name)
unfolding j_umount
j_umount-Keeps env pod_name named = retry_on_conflict-Keeps (record {
  kept = λ t h.
      rw (umount_once-answer pod_name env t) (on_answer-IsGuarded env pod_name t _ named refl h);
})
