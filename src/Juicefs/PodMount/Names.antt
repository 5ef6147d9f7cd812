-- ===== src/Juicefs/PodMount/Names.antt =====
-- Which pod genMountPodName of pkg/juicefs/mount/pod_mount.go chooses.
use juicedata_juicefs_csi_dr.Prelude.{
  ◌≡◌, refl, inl, inr, true, false, not, ◌&&◌, Bool, Option, some, none, List, [], ◌∷◌, Str, any,
  arith, Bool-cases, ◌++◌,
}
use juicedata_juicefs_csi_dr.Kube.{Pod}
use juicedata_juicefs_csi_dr.Juicefs.PodMount.Mount.{is_on_node, usable_pod}

-- A mount pod of the node that is not being deleted.
unfoldable pub is_usable : Str → Pod → Bool
is_usable node pod = not pod.deleting && is_on_node node pod

-- The choice `o` from the pods.
abbrev pub IsChoice : Str → List Pod → Option Str → Type 0
IsChoice node pods none = any (is_usable node) pods ≡ false
IsChoice node pods (some name) =
    (before : List Pod) × (pod : Pod) × (behind : List Pod) × (pods ≡ before ++ pod ∷ behind)
    × (pod.name ≡ name)
    × (is_usable node pod ≡ true)
    × (any (is_usable node) before ≡ false)

later :
    (node : Str) (pod : Pod) (pods : List Pod) (o : Option Str)
    → is_usable node pod ≡ false
    → IsChoice node pods o
    → IsChoice node (pod ∷ pods) o
unfolding any
later node pod pods none h c = ground (arith, c)
later node pod pods (some name) h (before, p, behind, e, same, usable, none_before) =
    (pod ∷ before, p, behind, rw e refl, same, usable, ground (arith, none_before))

-- The pod that is used again is the first in the list that is on the node and not being deleted;
-- a new one is named only where there is none.
pub usable_pod-IsChoice : (node : Str) (pods : List Pod) → IsChoice node pods (usable_pod node pods)
unfolding usable_pod any is_usable is_on_node
usable_pod-IsChoice node [] = refl
usable_pod-IsChoice node (pod ∷ pods) = elim (Bool-cases (is_usable node pod)) [
  | inl usable ↦ rw (usable, is_usable) ([], pod, pods, refl, refl, usable, refl)
  | inr other ↦
      rw other (later node pod pods (usable_pod node pods) other (usable_pod-IsChoice node pods))
]
