-- ===== src/Juicefs/PodMount/References.antt =====
-- The references that AddRefOfMount and UmountTarget of pkg/juicefs/mount/pod_mount.go write.
use juicedata_juicefs_csi_dr.Prelude.{
  ◌≡◌, refl, sym, inl, inr, ◌⊎◌, true, false, Bool, some, none, ◌∷◌, Str, lookup, insert,
  lookup-insert, lookup-delete, str_eq, is_some, GoMap, if◌then◌else◌, ap, ◌∙◌,
}
use juicedata_juicefs_csi_dr.Kube.{
  Pod, annotations_of, delete_delay_at_key, Env, Trace, got_pod, patched_pod, replace_annotations,
  Result, ok, err, diverged, M, fail, pure, other, continue, get_pod, patch_pod, not-err-ok,
  not-diverged-ok, retry_on_conflict-last,
}
use juicedata_juicefs_csi_dr.Util.Names.{get_reference_key}
use juicedata_juicefs_csi_dr.Util.Pods.{replace_pod_annotation}
use juicedata_juicefs_csi_dr.Juicefs.PodMount.Refs.{referred, add_ref_once, add_ref_of_mount}

-- The new annotations have the reference, no time of deletion, and the others as they were.
pub lookup-referred :
    (key target k : Str) (annotations : GoMap Str)
    → lookup k (referred key target annotations) ≡ (
        if str_eq delete_delay_at_key k
        then none
        else if str_eq key k
        then some target
        else lookup k annotations)
unfolding referred
lookup-referred key target k annotations = rw (
  lookup-delete delete_delay_at_key k (insert key target annotations),
  lookup-insert key k target annotations,
)

-- The history ends with an answer that shows the reference in a living pod, or with the patch that
-- adds it to the annotations of the answer before, and that the API server took.
abbrev pub EndsReferred : (Str → Str) → Str → Str → Str → Trace → Type 0
EndsReferred hash pod_name namespace target t =
    (pod : Pod) × (before : Trace) × (pod.deleting ≡ false)
    × (((t ≡ got_pod pod_name namespace (ok pod) ∷ before)
          × (is_some (lookup (get_reference_key hash target) (annotations_of pod)) ≡ true))
        ⊎ (t
            ≡ patched_pod pod.name pod.namespace
                (replace_annotations
                  (referred (get_reference_key hash target) target (annotations_of pod)))
                (ok tt)
              ∷ got_pod pod_name namespace (ok pod)
              ∷ before))

-- What AddRefOfMount does with the pod that it got, by its two tests.
abbrev add_to : Bool → Bool → (Str → Str) → Str → Pod → M (Unit {0})
add_to dying there hash target exist =
    if dying
    then fail (other "Mount pod has been deleted")
    else if there
    then pure tt
    else replace_pod_annotation exist
        (referred (get_reference_key hash target) target (annotations_of exist))

patch-EndsReferred :
    (r : Result (Unit {0})) (hash : Str → Str) (pod_name namespace target : Str) (pod : Pod)
    (before : Trace)
    → pod.deleting ≡ false
    → r ≡ ok tt
    → EndsReferred hash pod_name namespace target (
        patched_pod pod.name pod.namespace
          (replace_annotations
            (referred (get_reference_key hash target) target (annotations_of pod)))
          r
        ∷ got_pod pod_name namespace (ok pod)
        ∷ before)
patch-EndsReferred r hash pod_name namespace target pod before alive e =
    (pod, before, alive, inr (rw e refl))

add_to-EndsReferred :
    (dying there : Bool) (env : Env) (hash : Str → Str) (pod_name namespace target : Str)
    (pod : Pod) (before : Trace)
    → pod.deleting ≡ dying
    → is_some (lookup (get_reference_key hash target) (annotations_of pod)) ≡ there
    → let t = got_pod pod_name namespace (ok pod) ∷ before in
      (add_to dying there hash target pod env t).0 ≡ ok tt
      → EndsReferred hash pod_name namespace target (add_to dying there hash target pod env t).1
unfolding replace_pod_annotation patch_pod
add_to-EndsReferred true there env hash pod_name namespace target pod before d e h =
    absurd (not-err-ok h)
add_to-EndsReferred false true env hash pod_name namespace target pod before alive e h =
    (pod, before, alive, inl (refl, e))
add_to-EndsReferred false false env hash pod_name namespace target pod before alive e h =
    patch-EndsReferred _ hash pod_name namespace target pod before alive h

answer-EndsReferred :
    (r : Result Pod) (env : Env) (hash : Str → Str) (pod_name namespace target : Str)
    (before : Trace)
    → let run =
        continue
          (r, got_pod pod_name namespace r ∷ before)
          (λ pod.
            add_to pod.deleting
              (is_some (lookup (get_reference_key hash target) (annotations_of pod)))
              hash
              target
              pod)
          env in
      run.0 ≡ ok tt → EndsReferred hash pod_name namespace target run.1
answer-EndsReferred (ok pod) env hash pod_name namespace target before h =
    add_to-EndsReferred pod.deleting _ env hash pod_name namespace target pod before refl refl h
answer-EndsReferred (err e) env hash pod_name namespace target before h = absurd (not-err-ok h)
answer-EndsReferred diverged env hash pod_name namespace target before h =
    absurd (not-diverged-ok h)

add_ref_once-EndsReferred :
    (target pod_name : Str) (env : Env) (t : Trace)
    → (add_ref_once target pod_name env t).0 ≡ ok tt
    → EndsReferred env.sha256_hex pod_name env.mount_namespace target
        (add_ref_once target pod_name env t).1
unfolding add_ref_once get_pod
add_ref_once-EndsReferred target pod_name env t h =
    answer-EndsReferred (env.get_pod_reply t pod_name env.mount_namespace) env env.sha256_hex
      pod_name env.mount_namespace target t h

-- An AddRefOfMount that succeeds ends with the reference in a pod that is not being deleted: the
-- last answer shows it, or the API server took the patch that adds it to the annotations of the
-- last answer.
pub add_ref_of_mount-EndsReferred :
    (target pod_name : Str) (env : Env) (t : Trace)
    → (add_ref_of_mount target pod_name env t).0 ≡ ok tt
    → EndsReferred env.sha256_hex pod_name env.mount_namespace target
        (add_ref_of_mount target pod_name env t).1
unfolding add_ref_of_mount
add_ref_of_mount-EndsReferred target pod_name env t h =
    let (t', last) = retry_on_conflict-last (add_ref_once target pod_name) env t tt h in
    rw last (add_ref_once-EndsReferred target pod_name env t' (ap (λ p. p.0) (sym last) ∙ h))
