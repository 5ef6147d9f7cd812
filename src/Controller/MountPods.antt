-- ===== src/Controller/MountPods.antt =====
-- Reconcile of pkg/controller/pod_controller.go: a mount pod is handed to the pod driver, with the
-- app pods of the namespaces in which its volumes are claimed.
pub mod Driven
use juicedata_juicefs_csi_dr.Prelude.{
  ℕ, ◌-◌, Bool, true, false, not, ◌&&◌, ◌||◌, Option, none, some, List, [], ◌∷◌, ◌++◌, Str, lit,
  str_eq, get_str, is_empty, if◌then◌else◌,
}
use juicedata_juicefs_csi_dr.Kube.{
  Pod, Pv, CsiSource, MountInfo, annotations_of, hostname_label, unique_id_key, delete_delay_at_key,
  Err, Result, ok, err, diverged, other, Query, M, ◌>>=◌, ◌>>◌, pure, fail, lift, attempt, ask,
  is_not_found, get_pod, list_pod, list_persistent_volumes, parse_mount_info,
}
use juicedata_juicefs_csi_dr.Controller.MountTable.{MountInfoTable, set_pods_status}
use juicedata_juicefs_csi_dr.Controller.PodDriver.{run}

unfoldable pub on_this_node : Str → Pod → Bool
unfolding str_eq
on_this_node node pod =
    str_eq pod.node_name node || str_eq (get_str hostname_label pod.node_selector) node

abbrev pub source_relates : Str → Str → Str → CsiSource → Bool
source_relates driver_name unique_id class csi =
    str_eq csi.driver driver_name
    && (not (is_empty unique_id) && (str_eq csi.volume_handle unique_id || str_eq class unique_id))

unfoldable pub is_related : Str → Str → Pv → Bool
unfolding str_eq
is_related driver_name unique_id pv = elim pv.csi [
  | none ↦ false
  | some csi ↦ source_relates driver_name unique_id pv.storage_class csi
]

unfoldable pub related_pvs : Str → Str → List Pv → List Pv
unfolding is_related
related_pvs driver_name unique_id [] = []
related_pvs driver_name unique_id (pv ∷ pvs) =
    let rest = related_pvs driver_name unique_id pvs in
    if is_related driver_name unique_id pv then pv ∷ rest else rest

-- A namespace for each volume that is claimed.
unfoldable pub pvc_namespaces : List Pv → List Str
pvc_namespaces [] = []
pvc_namespaces (pv ∷ pvs) = elim pv.claim_ref [
  | none ↦ pvc_namespaces pvs
  | some (name, namespace) ↦ namespace ∷ pvc_namespaces pvs
]

unfoldable pub app_query : Str → Query
app_query namespace = record {
  namespace = namespace;
  labels = [];
  fields = [];
  keys = unique_id_key ∷ [];
}

unfoldable pub list_app_pods : List Str → M (List Pod)
list_app_pods [] = pure []
list_app_pods (namespace ∷ namespaces) = do
  pods ← list_pod (app_query namespace)
  rest ← list_app_pods namespaces
  pure (pods ++ rest)

-- When to look again, in seconds: at the time of the deletion, or in ten minutes.
unfoldable pub requeue_after : Pod → M (Option ℕ)
requeue_after pod =
    let delay_at = get_str delete_delay_at_key (annotations_of pod) in
    if is_empty delay_at then pure (some 600) else do
      at ← ask (λ env t. env.parse_time delay_at)
      now ← ask (λ env t. env.now t)
      elim at [ none ↦ fail (other "parsing time") | some due ↦ pure (some (due - now)) ]

unfoldable pub drive : ℕ → Pod → List MountInfo → List Str → M (Option ℕ)
unfolding set_pods_status
drive fuel pod mis namespaces = do
  apps ← list_app_pods namespaces
  run fuel (set_pods_status (record { mis = mis; deleted_pods = [] }) (some apps)) pod
  requeue_after pod

-- Without a claim, the pod is left alone; `err` is nil there.
unfoldable pub with_related : ℕ → Pod → List MountInfo → List Pv → M (Option ℕ)
unfolding pvc_namespaces
with_related fuel pod mis pvs =
    if is_empty pvs
    then fail (other "can not get pv by uniqueId")
    else if is_empty (pvc_namespaces pvs)
    then pure none
    else drive fuel pod mis (pvc_namespaces pvs)

unfoldable pub reconcile_on_node : ℕ → Pod → M (Option ℕ)
unfolding related_pvs
reconcile_on_node fuel pod = do
  mis ← parse_mount_info
  pvs ← list_persistent_volumes
  driver_name ← ask (λ env t. env.driver_name)
  with_related fuel pod mis
      (related_pvs driver_name (get_str unique_id_key (annotations_of pod)) pvs)

unfoldable pub reconcile_found : ℕ → Pod → M (Option ℕ)
unfolding on_this_node
reconcile_found fuel pod = do
  node ← ask (λ env t. env.node)
  if not (on_this_node node pod) then pure none else reconcile_on_node fuel pod

unfoldable pub reconcile_mount_pod : ℕ → Str → Str → M (Option ℕ)
reconcile_mount_pod fuel name namespace = do
  r ← attempt (get_pod name namespace)
  elim r [
    | ok pod ↦ reconcile_found fuel pod
    | err e ↦ if is_not_found e then pure none else fail e
    | diverged ↦ lift diverged
  ]
