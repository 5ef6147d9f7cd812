-- ===== src/Juicefs/PodMount/Creations.antt =====
-- Which mount pods createOrAddRef of pkg/juicefs/mount/pod_mount.go creates.
use juicedata_juicefs_csi_dr.Prelude.{◌≡◌, some, [], ◌∷◌, Str, GoMap, lookup, is_some}
use juicedata_juicefs_csi_dr.Kube.{
  Pod, Secret, annotations_of, Env, Trace, Event, created_pod, is_not_found, get_pod, list_node,
  create_pod, patch_pod, get_secret, create_secret, update_secret, sleep, Keeps, bind-Keeps,
  attempt-Keeps, fail-Keeps, ask-Keeps, if-Keeps, unless-Keeps, answer-Keeps,
  retry_on_conflict-Keeps,
}
use juicedata_juicefs_csi_dr.Util.Names.{get_reference_key}
use juicedata_juicefs_csi_dr.Util.Pods.{replace_pod_annotation}
use juicedata_juicefs_csi_dr.Juicefs.PodMount.Refs.{add_ref_once, add_ref_of_mount}
use juicedata_juicefs_csi_dr.Juicefs.PodMount.Jobs.{write_secret, create_or_update_secret}

-- The pod has the reference to the target under the key.
abbrev pub RefersTo : Str → Str → Pod → Type 0
RefersTo key target pod = lookup key (annotations_of pod) ≡ some target

abbrev pub MayCreate : Str → Str → Event → Type 0
MayCreate key target (created_pod pod r) = RefersTo key target pod
MayCreate key target _ = Unit {0}

-- Every pod that was created has the reference.
unfoldable pub CreatesReferring : Str → Str → Trace → Type 0
CreatesReferring key target [] = Unit {0}
CreatesReferring key target (e ∷ t) = MayCreate key target e × CreatesReferring key target t

module _ (key target : Str) {env : Env} where
  pub get_pod-Keeps :
      (name namespace : Str) → Keeps env (CreatesReferring key target) (get_pod name namespace)
  unfolding get_pod CreatesReferring
  get_pod-Keeps name namespace = record { kept = λ t h. (tt, h) }

  pub list_node-Keeps :
      (labels : GoMap Str) → Keeps env (CreatesReferring key target) (list_node labels)
  unfolding list_node CreatesReferring
  list_node-Keeps labels = record { kept = λ t h. (tt, h) }

  get_secret-Keeps :
      (name namespace : Str) → Keeps env (CreatesReferring key target) (get_secret name namespace)
  unfolding get_secret CreatesReferring
  get_secret-Keeps name namespace = record { kept = λ t h. (tt, h) }

  create_secret-Keeps : (s : Secret) → Keeps env (CreatesReferring key target) (create_secret s)
  unfolding create_secret CreatesReferring
  create_secret-Keeps s = record { kept = λ t h. (tt, h) }

  update_secret-Keeps : (s : Secret) → Keeps env (CreatesReferring key target) (update_secret s)
  unfolding update_secret CreatesReferring
  update_secret-Keeps s = record { kept = λ t h. (tt, h) }

  replace-Keeps :
      (pod : Pod) (annotations : GoMap Str)
      → Keeps env (CreatesReferring key target) (replace_pod_annotation pod annotations)
  unfolding replace_pod_annotation patch_pod CreatesReferring
  replace-Keeps pod annotations = record { kept = λ t h. (tt, h) }

  pub sleep-Keeps : Keeps env (CreatesReferring key target) sleep
  unfolding CreatesReferring
  sleep-Keeps = record { kept = λ t h. (tt, h) }

  pub create_pod-Keeps :
      (pod : Pod)
      → RefersTo key target pod
      → Keeps env (CreatesReferring key target) (create_pod pod)
  unfolding create_pod CreatesReferring
  create_pod-Keeps pod refers = record { kept = λ t h. (refers, h) }

  write_secret-Keeps : (s : Secret) → Keeps env (CreatesReferring key target) (write_secret s)
  unfolding write_secret
  write_secret-Keeps s = bind-Keeps (ask-Keeps (λ env t. env.mount_namespace)) (λ namespace.
      bind-Keeps (attempt-Keeps (get_secret-Keeps s.name namespace)) (λ r.
        answer-Keeps r (λ old. update_secret-Keeps _)
          (λ e. if-Keeps (is_not_found e) (λ _. create_secret-Keeps s) (λ _. fail-Keeps e))))

  pub secret-Keeps :
      (s : Secret) → Keeps env (CreatesReferring key target) (create_or_update_secret s)
  unfolding create_or_update_secret
  secret-Keeps s = retry_on_conflict-Keeps (write_secret-Keeps s)

  add_ref_once-Keeps :
      (new_target pod_name : Str)
      → Keeps env (CreatesReferring key target) (add_ref_once new_target pod_name)
  unfolding add_ref_once
  add_ref_once-Keeps new_target pod_name = bind-Keeps (ask-Keeps (λ env t. env.sha256_hex)) (λ hash.
      bind-Keeps (ask-Keeps (λ env t. env.mount_namespace)) (λ namespace.
        bind-Keeps (get_pod-Keeps pod_name namespace) (λ exist.
          if-Keeps exist.deleting (λ _. fail-Keeps _)
            (λ _.
              unless-Keeps
                (is_some (lookup (get_reference_key hash new_target) (annotations_of exist))) tt
                (λ _. replace-Keeps exist _)))))

  pub add_ref-Keeps :
      (new_target pod_name : Str)
      → Keeps env (CreatesReferring key target) (add_ref_of_mount new_target pod_name)
  unfolding add_ref_of_mount
  add_ref-Keeps new_target pod_name =
      retry_on_conflict-Keeps (add_ref_once-Keeps new_target pod_name)
