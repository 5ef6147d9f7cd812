-- ===== src/Controller/PodDriver/Redeploy.antt =====
-- The handlers of a pod that failed or does not start, in pkg/controller/pod_driver.go. Both deploy
-- a pod that lacks resources again, with no resource requests.
use juicedata_juicefs_csi_dr.Prelude.{
  ℕ, zero, suc, Bool, true, false, Option, none, some, [], ◌∷◌, if◌then◌else◌, ◌||◌,
}
use juicedata_juicefs_csi_dr.Kube.{
  Pod, finalizer, Err, canceled, deadline_exceeded, Result, ok, err, diverged, M, ◌>>=◌, ◌>>◌, pure,
  lift, when, attempt, ask, sleep, with_lock, get_pod, delete_pod, create_pod, is_not_found,
  is_timeout,
}
use juicedata_juicefs_csi_dr.Util.Pods.{
  remove_finalizer, is_pod_resource_error, is_pod_has_resource, delete_resource_of_pod,
}

-- The pod of a literal `corev1.Pod` with the name, the labels, the annotations and the spec of
-- `pod`, and the finalizer that AddFinalizer puts on it.
unfoldable pub renewed : Pod → Pod
renewed pod = record {
  name = pod.name;
  namespace = pod.namespace;
  uid = [];
  labels = pod.labels;
  annotations = pod.annotations;
  finalizers = finalizer ∷ [];
  deleting = false;
  node_name = pod.node_name;
  node_selector = pod.node_selector;
  containers = pod.containers;
  volumes = pod.volumes;
  grace_period = pod.grace_period;
  scheduling = pod.scheduling;
  phase = [];
  reason = [];
  message = [];
  conditions = [];
  init_container_statuses = [];
  container_statuses = [];
}

abbrev is_context_end : Option Err → Bool
is_context_end (some canceled) = true
is_context_end (some deadline_exceeded) = true
is_context_end _ = false

-- `_, err := GetPod(...)` in the loop that waits for the deletion: `some` ends the loop, with
-- `isDeleted`. The context of the call may have ended too.
unfoldable pub deletion_seen : Option Err → Result Pod → Option Bool
deletion_seen context_error (ok pod) = none
deletion_seen context_error (err e) =
    if is_not_found e
    then some true
    else if is_timeout e || is_context_end context_error
    then some false
    else none
deletion_seen context_error diverged = none

-- The loop, for `fuel` rounds. It sleeps while the pod is there, and not after another error.
unfoldable pub wait_deleted : ℕ → Pod → M Bool
wait_deleted zero pod = lift diverged
wait_deleted (suc fuel) pod = do
  r ← attempt (get_pod pod.name pod.namespace)
  c ← ask (λ env t. env.context_error t)
  elim (deletion_seen c r) [
    | some deleted ↦ pure deleted
    | none ↦ elim r [
      | ok found ↦ do sleep; wait_deleted fuel pod
      | err e ↦ wait_deleted fuel pod
      | diverged ↦ lift diverged
    ]
  ]

unfoldable pub create_without_resources : Pod → M (Unit {0})
create_without_resources pod = do
  attempt (create_pod (delete_resource_of_pod (renewed pod)))
  pure tt

unfoldable pub redeploy : ℕ → Pod → M (Unit {0})
redeploy fuel pod = do
  attempt (remove_finalizer pod finalizer)
  deletion ← attempt (delete_pod pod)
  elim deletion [
    | err e ↦ pure tt
    | diverged ↦ lift diverged
    | ok u ↦ do deleted ← wait_deleted fuel pod; when deleted (create_without_resources pod)
  ]

unfoldable pub redeploy_if_short : ℕ → Pod → M (Unit {0})
redeploy_if_short fuel pod = with_lock pod.name (
    if is_pod_resource_error pod
    then (if is_pod_has_resource pod then redeploy fuel pod else pure tt)
    else pure tt)

unfoldable pub pod_error_handler : ℕ → Option Pod → M (Unit {0})
pod_error_handler fuel none = pure tt
pod_error_handler fuel (some pod) = redeploy_if_short fuel pod

unfoldable pub pod_pending_handler : ℕ → Option Pod → M (Unit {0})
pod_pending_handler fuel none = pure tt
pod_pending_handler fuel (some pod) = redeploy_if_short fuel pod
