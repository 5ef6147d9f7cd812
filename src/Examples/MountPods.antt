-- ===== src/Examples/MountPods.antt =====
-- The controller of mount pods at a concrete input.
use juicedata_juicefs_csi_dr.Prelude.{
  [], ◌∷◌, lit, none, some, false, subst, refl, ◌≡◌, count, any, str_eq, contains, List,
}
use juicedata_juicefs_csi_dr.Kube.{
  Env, Pod, Pv, ok, Keeps, bind-Keeps, ok-injective, unique_id_key, parse_mount_info,
  list_persistent_volumes, get_pod, list_pod, with_lock-Keeps, pure-Keeps,
}
use juicedata_juicefs_csi_dr.Util.Guarded.{IsGuarded}
use juicedata_juicefs_csi_dr.Controller.MountTable.{MountInfoTable}
use juicedata_juicefs_csi_dr.Controller.PodDriver.{run, dispatch, handle}
use juicedata_juicefs_csi_dr.Controller.PodDriver.Deletions.{check_annotations-IsGuarded}
use juicedata_juicefs_csi_dr.Controller.MountPods.{reconcile_mount_pod}
use juicedata_juicefs_csi_dr.Controller.MountPods.Driven.{
  Driven, RequestsKeep, reconcile_mount_pod-Keeps,
}
use juicedata_juicefs_csi_dr.Examples.World.{mount_pod, world_with}
use juicedata_juicefs_csi_dr.Util.Pods.{
  is_pod_resource_error, is_pod_error, is_pod_ready, contain_error, lacks_resource, counts_as_ready,
}
use juicedata_juicefs_csi_dr.Controller.PodDriver.Annotations.{get_pod_status, pod_pending}
use juicedata_juicefs_csi_dr.Controller.PodDriver.Redeploy.{pod_pending_handler, redeploy_if_short}
use juicedata_juicefs_csi_dr.Controller.Rounds.{choose}
use juicedata_juicefs_csi_dr.Controller.Rounds.Chosen.{Visit, Rounds, choose-Rounds}

-- A pod that is not ready yet, on the node of the driver.
abbrev starting_pod : Pod
starting_pod = mount_pod ((unique_id_key, lit "pvc-1") ∷ [])

abbrev claimed_volume : Pv
claimed_volume = record {
  name = lit "pvc-1";
  deleting = false;
  storage_class = lit "juicefs";
  reclaim_policy = lit "Delete";
  mount_options = [];
  claim_ref = some (lit "claim", lit "default");
  csi = some (record {
    driver = lit "csi.juicefs.com";
    volume_handle = lit "pvc-1";
    attributes = [];
    publish_secret = none;
  });
}

-- The answers show the pod, whatever its name, and the volume.
abbrev claimed_world : Env
claimed_world = record (world_with starting_pod) {
  get_pod_reply = λ _ _ _. ok starting_pod;
  list_pvs_reply = λ _. ok (claimed_volume ∷ []);
}

requests_keep : RequestsKeep claimed_world (IsGuarded claimed_world.sha256_hex)
unfolding get_pod parse_mount_info list_persistent_volumes list_pod IsGuarded
requests_keep = record {
  gets = λ name namespace. record { kept = λ t h. (tt, h) };
  mounts = record { kept = λ t h. (tt, h) };
  volumes = record { kept = λ t h. (tt, h) };
  pods = λ namespace. record { kept = λ t h. (tt, h) };
}

starting-IsPending : get_pod_status (some starting_pod) ≡ pod_pending
unfolding get_pod_status is_pod_error is_pod_ready contain_error count counts_as_ready any str_eq
starting-IsPending = refl

starting-HasRoom : is_pod_resource_error starting_pod ≡ false
unfolding is_pod_resource_error lacks_resource contains any str_eq
starting-HasRoom = refl

pending-Keeps :
    (mit : MountInfoTable)
    → Keeps claimed_world
        (IsGuarded claimed_world.sha256_hex)
        (dispatch 3 mit starting_pod pod_pending)
unfolding dispatch handle pod_pending_handler redeploy_if_short IsGuarded
pending-Keeps mit =
    with_lock-Keeps starting_pod.name (λ t h. (tt, h)) (λ t h. (tt, h))
      (rw starting-HasRoom (pure-Keeps tt))

-- A pod that is not ready, nor short of resources, is not deleted but by its annotations.
starting-Keeps :
    (mit : MountInfoTable)
    → Keeps claimed_world (IsGuarded claimed_world.sha256_hex) (run 3 mit starting_pod)
unfolding run
starting-Keeps mit = rw starting-IsPending (
    bind-Keeps (record { kept = check_annotations-IsGuarded mit starting_pod claimed_world })
      (λ _. pending-Keeps mit))

runs_keep :
    (pod : Pod) (mit : MountInfoTable)
    → Driven claimed_world (lit "juicefs-node-a-pvc-1") (lit "kube-system") pod mit
    → Keeps claimed_world (IsGuarded claimed_world.sha256_hex) (run 3 mit pod)
runs_keep pod mit driven =
    subst (λ p. Keeps claimed_world (IsGuarded claimed_world.sha256_hex) (run 3 mit p))
      (ok-injective driven.asked.1) (starting-Keeps mit)

reconcile_mount_pod-Keeps_example :
    Keeps claimed_world
      (IsGuarded claimed_world.sha256_hex)
      (reconcile_mount_pod 3 (lit "juicefs-node-a-pvc-1") (lit "kube-system"))
reconcile_mount_pod-Keeps_example =
    reconcile_mount_pod-Keeps claimed_world (IsGuarded claimed_world.sha256_hex) 3
      (lit "juicefs-node-a-pvc-1") (lit "kube-system") requests_keep runs_keep

abbrev labelled_pod : Pod
labelled_pod = record starting_pod {
  labels = (lit "app.kubernetes.io/name", lit "juicefs-mount") ∷ [];
}

-- Three visits of a pod within ten minutes, and a later one.
abbrev visits : List Visit
visits =
    (1000, labelled_pod) ∷ (1005, labelled_pod) ∷ (1590, labelled_pod) ∷ (1600, labelled_pod) ∷ []

choose-Rounds_example :
    Rounds (lit "kube-system") [] visits (choose (lit "kube-system") visits []).1
choose-Rounds_example = choose-Rounds (lit "kube-system") visits
