-- ===== src/Examples/Driver.antt =====
-- The pod driver at concrete pods and mount tables.
use juicedata_juicefs_csi_dr.Prelude.{
  ◌≡◌, ◌+◌, refl, false, some, [], ◌∷◌, List, Str, lit, lookup, count, str_eq, has_prefix, index,
  contains, any,
}
use juicedata_juicefs_csi_dr.Kube.{
  Pod, MountInfo, annotations_of, with_lock, patch_pod, delete_pod, get_pod, create_pod,
}
use juicedata_juicefs_csi_dr.Util.Names.{get_reference_key}
use juicedata_juicefs_csi_dr.Util.Pods.{
  get_ref, is_pod_resource_error, is_pod_has_resource, has_requests, remove_finalizer,
  delete_resource_of_pod, lacks_resource, remove_loop, without_resources,
}
use juicedata_juicefs_csi_dr.Controller.MountTable.{MountInfoTable, collect}
use juicedata_juicefs_csi_dr.Controller.MountTable.Counts.{collect-counts, count_at, counts_for}
use juicedata_juicefs_csi_dr.Controller.PodDriver.Redeploy.{
  wait_deleted, pod_error_handler, pod_pending_handler, redeploy_if_short, redeploy, deletion_seen,
  create_without_resources, renewed,
}
use juicedata_juicefs_csi_dr.Controller.PodDriver.Creations.{CreatesBare, handlers-CreatesBare}
use juicedata_juicefs_csi_dr.Controller.PodDriver.Deleted.{pod_deleted_handler}
use juicedata_juicefs_csi_dr.Controller.PodDriver.Retired.{creations, pod_deleted_handler-creations}
use juicedata_juicefs_csi_dr.Examples.World.{empty_world, mount_pod}

abbrev app_target : Str
app_target = lit "/var/lib/kubelet/pods/uid-1/volumes/kubernetes.io~csi/pvc-1/mount"

abbrev app_entry : MountInfo
app_entry = record { mount_point = app_target; root = lit "/"; minor = 51 }

-- The target is mounted twice, and another one once.
abbrev entries : List MountInfo
entries =
    app_entry ∷ record { mount_point = lit "/other"; root = lit "/"; minor = 52 } ∷ app_entry ∷ []

collect-counts_example :
    count_at (lookup app_target (collect app_target false entries []))
    ≡ count_at (lookup app_target []) + count (counts_for app_target false app_target) entries
collect-counts_example = collect-counts app_target false app_target entries []

abbrev example_pod : Pod
example_pod = mount_pod ((get_reference_key (λ s. s) app_target, app_target) ∷ [])

abbrev no_apps : MountInfoTable
no_apps = record { mis = []; deleted_pods = [] }

-- A pod that failed for want of resources.
abbrev short_pod : Pod
short_pod = record example_pod { phase = lit "Failed"; reason = lit "OutOfcpu" }

empty-CreatesBare : CreatesBare []
unfolding CreatesBare
empty-CreatesBare = tt

handlers-CreatesBare_example :
    CreatesBare (pod_error_handler 3 (some short_pod) empty_world []).1
    × CreatesBare (pod_pending_handler 3 (some short_pod) empty_world []).1
handlers-CreatesBare_example =
    handlers-CreatesBare 3 (some short_pod) empty_world [] empty-CreatesBare

pod_deleted_handler-creations_example :
    creations (pod_deleted_handler 3 no_apps (some (mount_pod [])) empty_world []).1 ≡ creations []
unfolding get_ref count annotations_of
pod_deleted_handler-creations_example =
    pod_deleted_handler-creations 3 no_apps (mount_pod []) empty_world [] refl

-- The handler creates a pod in that run.
error_handler_creates : creations (pod_error_handler 3 (some short_pod) empty_world []).1 ≡ 1
unfolding pod_error_handler creations redeploy_if_short redeploy wait_deleted deletion_seen
    create_without_resources renewed with_lock patch_pod delete_pod get_pod create_pod
    is_pod_resource_error is_pod_has_resource has_requests remove_finalizer delete_resource_of_pod
    lacks_resource remove_loop without_resources str_eq contains any has_prefix index
error_handler_creates = refl
