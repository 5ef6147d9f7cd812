-- ===== src/Controller/Recycling.antt =====
-- The reconcilers of jobs and of mount pods in the controller: Reconcile of
-- pkg/controller/job_controller.go and of pkg/controller/mount_controller.go.
use juicedata_juicefs_csi_dr.Prelude.{
  Bool, not, ◌||◌, List, [], ◌∷◌, Str, lit, is_empty, contains_string, if◌then◌else◌,
}
use juicedata_juicefs_csi_dr.Kube.{
  Pod, Job, finalizer, Query, ok, err, diverged, M, ◌>>=◌, pure, fail, lift, attempt, ask,
  is_not_found, get_pod, get_job, list_pod, delete_job,
}
use juicedata_juicefs_csi_dr.Util.Jobs.{is_job_should_be_recycled}
use juicedata_juicefs_csi_dr.Util.Pods.{remove_finalizer}

-- The pods of the driver on the node.
unfoldable pub csi_query : Str → Str → Query
csi_query namespace node = record {
  namespace = namespace;
  labels = (lit "app", lit "juicefs-csi-node") ∷ [];
  fields = (lit "spec.nodeName", node) ∷ [];
  keys = [];
}

unfoldable pub list_csi_pods : Str → M (List Pod)
list_csi_pods node = do
  namespace ← ask (λ env t. env.mount_namespace)
  list_pod (csi_query namespace node)

unfoldable pub recycle_if : Bool → Job → M (Unit {0})
recycle_if needed job = if needed then delete_job job.name job.namespace else pure tt

-- A job without a node is recycled when it is over; one with a node also when the driver is not on
-- that node.
unfoldable pub recycle : Job → M (Unit {0})
recycle job = do
  now ← ask (λ env t. env.now t)
  if is_empty job.node_name then recycle_if (is_job_should_be_recycled now job) job else do
    csi_pods ← list_csi_pods job.node_name
    after ← ask (λ env t. env.now t)
    recycle_if (is_empty csi_pods || is_job_should_be_recycled after job) job

unfoldable pub reconcile_job : Str → Str → M (Unit {0})
reconcile_job name namespace = do
  r ← attempt (get_job name namespace)
  elim r [
    | ok job ↦ if job.deleting then pure tt else recycle job
    | err e ↦ if is_not_found e then pure tt else fail e
    | diverged ↦ lift diverged
  ]

unfoldable pub release_finalizer : Pod → M (Unit {0})
release_finalizer mount_pod = do
  csi_pods ← list_csi_pods mount_pod.node_name
  if is_empty csi_pods then remove_finalizer mount_pod finalizer else pure tt

unfoldable pub reconcile_mount : Str → Str → M (Unit {0})
reconcile_mount name namespace = do
  r ← attempt (get_pod name namespace)
  elim r [
    | ok mount_pod ↦
        if not mount_pod.deleting
        then pure tt
        else if not (contains_string mount_pod.finalizers finalizer)
        then pure tt
        else release_finalizer mount_pod
    | err e ↦ if is_not_found e then pure tt else fail e
    | diverged ↦ lift diverged
  ]
