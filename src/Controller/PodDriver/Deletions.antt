-- ===== src/Controller/PodDriver/Deletions.antt =====
-- Which mount pods checkAnnotations of pkg/controller/pod_driver.go deletes.
use juicedata_juicefs_csi_dr.Prelude.{
  refl, sym, ◌∙◌, ◌∷◌, inl, inr, not, ◌&&◌, Str, List, ◌==◌, ==_iff, length, is_empty, Bool-cases,
}
use juicedata_juicefs_csi_dr.Kube.{
  Pod, conflict, Env, Trace, got_pod, Result, ok, err, diverged, M, ◌>>◌, fail, when, continue,
  attempt, pure, get_pod, delete_pod, delete_secret, Keeps, bind-Keeps, attempt-Keeps, pure-Keeps,
  fail-Keeps, with_lock, locked, when-Keeps, continue-keeps,
}
use juicedata_juicefs_csi_dr.Util.Pods.{get_all_ref_keys}
use juicedata_juicefs_csi_dr.Util.Pods.Laws.{length-get_all_ref_keys}
use juicedata_juicefs_csi_dr.Util.Guarded.{
  IsGuarded, get_pod-Keeps, delete_secret-Keeps, del_pod_annotation-Keeps, should_delay-Keeps,
  delete_pod-IsGuarded,
}
use juicedata_juicefs_csi_dr.Controller.MountTable.{MountInfoTable}
use juicedata_juicefs_csi_dr.Controller.PodDriver.Annotations.{
  del_annotations, exist_targets, remove_annotations_checked, delete_unless_referred, delete_if_due,
  check_annotations, secret_name_of,
}

-- The program of `delete_unless_referred`, after the answer of the API server.
abbrev delete_seen : (Str → Str) → Pod → Pod → M (Unit {0})
delete_seen hash pod new_pod = do
  when (not (length (get_all_ref_keys hash new_pod) == 0)) (fail conflict)
  delete_pod pod
  attempt (delete_secret (secret_name_of pod.name) pod.namespace)
  pure tt

delete_seen-IsGuarded :
    (env : Env) (hash : Str → Str) (pod new_pod : Pod) (before : Trace)
    → IsGuarded hash before
    → let t = got_pod pod.name pod.namespace (ok new_pod) ∷ before in
      IsGuarded hash (delete_seen hash pod new_pod env t).1
unfolding IsGuarded
delete_seen-IsGuarded env hash pod new_pod before h =
    elim (Bool-cases (length (get_all_ref_keys hash new_pod) == 0)) [
      | inl none_left ↦ rw none_left (
          continue-keeps {P = IsGuarded hash} (delete_pod pod env _) _
            (delete_pod-IsGuarded env hash pod _
              (
                new_pod,
                before,
                refl,
                sym (length-get_all_ref_keys hash new_pod) ∙ (==_iff _ 0).0 none_left,
              )
              (tt, h))
            (λ _. bind-Keeps (attempt-Keeps (delete_secret-Keeps hash _ _)) (λ _. pure-Keeps tt)))
      | inr referred ↦ rw referred (tt, h)
    ]

on_answer-IsGuarded :
    (env : Env) (hash : Str → Str) (pod : Pod) (t : Trace) (r : Result Pod)
    → IsGuarded hash t
    → IsGuarded hash
        (continue (r, got_pod pod.name pod.namespace r ∷ t) (delete_seen hash pod) env).1
unfolding IsGuarded
on_answer-IsGuarded env hash pod t (ok new_pod) h = delete_seen-IsGuarded env hash pod new_pod t h
on_answer-IsGuarded env hash pod t (err e) h = (tt, h)
on_answer-IsGuarded env hash pod t diverged h = (tt, h)

delete_unless_referred-Keeps :
    (env : Env) (hash : Str → Str) (pod : Pod)
    → Keeps env (IsGuarded hash) (delete_unless_referred hash pod)
unfolding delete_unless_referred get_pod
delete_unless_referred-Keeps env hash pod = record {
  kept = λ t h. on_answer-IsGuarded env hash pod t (env.get_pod_reply t pod.name pod.namespace) h;
}

module _ {env : Env} (hash : Str → Str) where
  remove_checked-Keeps :
      (pod : Pod) (keys : List Str)
      → Keeps env (IsGuarded hash) (remove_annotations_checked hash pod keys)
  unfolding remove_annotations_checked
  remove_checked-Keeps pod keys = bind-Keeps (get_pod-Keeps hash pod.name pod.namespace) (λ new_pod.
      bind-Keeps (when-Keeps _ (λ _. fail-Keeps conflict))
        (λ _. del_pod_annotation-Keeps hash pod keys))

  delete_if_due-Keeps : (pod : Pod) → Keeps env (IsGuarded hash) (delete_if_due hash pod)
  unfolding delete_if_due
  delete_if_due-Keeps pod =
      bind-Keeps (should_delay-Keeps hash pod)
        (λ delay. when-Keeps (not delay) (λ _. delete_unless_referred-Keeps env hash pod))

  checked-Keeps :
      (mit : MountInfoTable) (pod : Pod)
      → Keeps env (IsGuarded hash) (do
        when
            (not (is_empty (del_annotations hash mit pod)))
            (remove_annotations_checked hash pod (del_annotations hash mit pod))
        when (exist_targets hash mit pod == 0 && not pod.deleting) (delete_if_due hash pod))
  checked-Keeps mit pod =
      bind-Keeps
        (when-Keeps (not (is_empty (del_annotations hash mit pod)))
          (λ _. remove_checked-Keeps pod (del_annotations hash mit pod)))
        (λ _.
          when-Keeps (exist_targets hash mit pod == 0 && not pod.deleting)
            (λ _. delete_if_due-Keeps pod))

-- Every mount pod that checkAnnotations deletes was seen, by the call right before, to have no
-- references left, however its calls are answered and whichever of them fail.
pub check_annotations-IsGuarded :
    (mit : MountInfoTable) (pod : Pod) (env : Env) (t : Trace)
    → IsGuarded env.sha256_hex t
    → IsGuarded env.sha256_hex (check_annotations mit pod env t).1
unfolding check_annotations with_lock IsGuarded
check_annotations-IsGuarded mit pod env t h =
    (tt, (checked-Keeps {env = env} env.sha256_hex mit pod).kept (locked pod.name ∷ t) (tt, h))
