-- ===== src/Controller/PodDriver/References.antt =====
-- The references that checkAnnotations of pkg/controller/pod_driver.go counts and drops.
use juicedata_juicefs_csi_dr.Prelude.{
  ◌+◌, ◌≡◌, refl, List, [], ◌∷◌, Str, count, keep, map, length, arith,
}
use juicedata_juicefs_csi_dr.Kube.{Pod, annotations_of}
use juicedata_juicefs_csi_dr.Util.Pods.{get_ref, is_ref}
use juicedata_juicefs_csi_dr.Controller.MountTable.{MountInfoTable}
use juicedata_juicefs_csi_dr.Controller.PodDriver.Annotations.{
  stale_keys, exist_targets, is_stale_ref, is_live_ref,
}

partition :
    (hash : Str → Str) (mit : MountInfoTable) (annotations : List (Str × Str))
    → length (map (λ kv. kv.0) (keep (is_stale_ref hash mit) annotations))
        + count (is_live_ref hash mit) annotations
      ≡ count (is_ref hash) annotations
unfolding keep count is_stale_ref is_live_ref
partition hash mit [] = refl
partition hash mit ((k, target) ∷ annotations) = ground (arith, partition hash mit annotations)

-- Each reference of a mount pod is either dropped or counted as in use, never both.
pub stale_keys-exist_targets :
    (hash : Str → Str) (mit : MountInfoTable) (pod : Pod)
    → length (stale_keys hash mit pod) + exist_targets hash mit pod ≡ get_ref hash pod
unfolding stale_keys exist_targets get_ref
stale_keys-exist_targets hash mit pod = partition hash mit (annotations_of pod)
