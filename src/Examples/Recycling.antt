-- ===== src/Examples/Recycling.antt =====
-- The reconcilers of jobs and of mount pods at concrete inputs.
use juicedata_juicefs_csi_dr.Prelude.{[], lit, none, false, true}
use juicedata_juicefs_csi_dr.Kube.{Env, Job, ok}
use juicedata_juicefs_csi_dr.Controller.Recycling.{reconcile_mount, reconcile_job}
use juicedata_juicefs_csi_dr.Controller.Recycled.{MayRelease, reconcile_mount-MayRelease}
use juicedata_juicefs_csi_dr.Controller.Discarded.{MayDiscard, reconcile_job-MayDiscard}
use juicedata_juicefs_csi_dr.Examples.World.{empty_world, mount_pod, world_with}

-- A mount pod that is being deleted, on a node without the driver.
abbrev mount_world : Env
mount_world = world_with (record (mount_pod []) { deleting = true })

reconcile_mount-MayRelease_example :
    MayRelease
      (lit "kube-system")
      (lit "juicefs-node-a-pvc-1")
      (lit "kube-system")
      []
      (reconcile_mount (lit "juicefs-node-a-pvc-1") (lit "kube-system") mount_world []).1
reconcile_mount-MayRelease_example =
    reconcile_mount-MayRelease (lit "juicefs-node-a-pvc-1") (lit "kube-system") mount_world []

-- A job that is not over, on a node without the driver.
abbrev lost_job : Job
lost_job = record {
  name = lit "juicefs-create";
  namespace = lit "kube-system";
  conditions = [];
  deleting = false;
  node_name = lit "node-a";
  ttl_seconds = none;
  completion_time = none;
}

abbrev lost_world : Env
lost_world = record empty_world { get_job_reply = λ _ _ _. ok lost_job }

reconcile_job-MayDiscard_example :
    MayDiscard lost_world
      (lit "juicefs-create")
      (lit "kube-system")
      []
      (reconcile_job (lit "juicefs-create") (lit "kube-system") lost_world []).1
reconcile_job-MayDiscard_example =
    reconcile_job-MayDiscard (lit "juicefs-create") (lit "kube-system") lost_world []
