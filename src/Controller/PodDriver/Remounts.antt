-- ===== src/Controller/PodDriver/Remounts.antt =====
-- What podDeletedHandler of pkg/controller/pod_driver.go makes of the answers to its calls.
use juicedata_juicefs_csi_dr.Prelude.{ℕ, suc, ◌≡◌, refl, true, false, Bool, ◌∷◌, Str, GoMap}
use juicedata_juicefs_csi_dr.Kube.{
  Pod, annotations_of, Env, Trace, got_pod, replace_annotations, Err, ok, err, M, get_pod,
  patch_pod,
}
use juicedata_juicefs_csi_dr.Util.Pods.{replace_pod_annotation}
use juicedata_juicefs_csi_dr.Controller.MountTable.{MountInfoTable}
use juicedata_juicefs_csi_dr.Controller.PodDriver.Deleted.{insert_all, add_targets, replace_pod}

add_targets-ok :
    (pod po : Pod) (targets : GoMap Str) (e : Err) (env : Env) (t : Trace)
    → env.patch_pod_reply t pod.name pod.namespace
        (replace_annotations (insert_all targets (annotations_of po)))
      ≡ err e
    → (add_targets pod po targets env t).0 ≡ ok tt
unfolding add_targets replace_pod_annotation patch_pod
add_targets-ok pod po targets e env t failed = rw failed refl

when_alive :
    (b : Bool) (m n : M (Unit {0})) (env : Env) (t : Trace)
    → b ≡ false
    → (n env t).0 ≡ ok tt
    → ((elim b as (λ _. M (Unit {0})) [ true ↦ m | false ↦ n ]) env t).0 ≡ ok tt
when_alive false m n env t e h = h
when_alive true m n env t e h = absurd (cc)

-- The pod was created elsewhere and its patch fails: the handler reports success.
pub replace_pod-swallows :
    (fuel : ℕ) (mit : MountInfoTable) (pod po : Pod) (source : Str) (targets : GoMap Str) (e : Err)
    (env : Env) (t : Trace)
    → env.get_pod_reply t pod.name pod.namespace ≡ ok po
    → po.deleting ≡ false
    → env.patch_pod_reply
        (got_pod pod.name pod.namespace (ok po) ∷ t)
        pod.name
        pod.namespace
        (replace_annotations (insert_all targets (annotations_of po)))
      ≡ err e
    → (replace_pod (suc fuel) mit pod source targets env t).0 ≡ ok tt
unfolding replace_pod get_pod
replace_pod-swallows fuel mit pod po source targets e env t got alive failed = rw got (
    when_alive po.deleting _ (add_targets pod po targets) env _ alive
      (add_targets-ok pod po targets e env _ failed))
