-- ===== src/Config/Patches/Merged.antt =====
-- GenMountPodPatch of pkg/config/config.go: which of the patches sets a field.
use mathlib.Core.List.{map}
use juicedata_juicefs_csi_dr.Prelude.{
  ◌≡◌, refl, ap, ◌∙◌, inl, inr, Bool-cases, Option, none, some, List, [], ◌∷◌, keep, arith,
}
use juicedata_juicefs_csi_dr.Kube.{Pvc}
use juicedata_juicefs_csi_dr.Config.Patches.{
  MountPodPatch, PatchLibrary, deep_copy, merge, override, selected, merge_all, no_patch,
}

module _ {ℓ} {A : Type ℓ} where
  -- The last value that is set.
  unfoldable pub last_some : List (Option A) → Option A
  last_some [] = none
  last_some (o ∷ os) = elim (last_some os) [ none ↦ o | some a ↦ some a ]

  override-last :
      (old new : Option A) (os : List (Option A))
      → override (override old new) (last_some os) ≡ override old (last_some (new ∷ os))
  unfolding last_some
  override-last old new os = ground arith

-- The copies of the patches that select the claim.
unfoldable pub chosen : PatchLibrary → Option Pvc → List MountPodPatch → List MountPodPatch
unfolding keep
chosen lib pvc mps = map deep_copy (keep (λ mp. selected lib pvc mp.pvc_selector) mps)

module _ {ℓ} {A : Type ℓ} (lib : PatchLibrary) (pvc : Option Pvc)
    (field : MountPodPatch → Option A) where
  -- What `merge` overrides is what the last chosen patch sets, if one does.
  merge_all-field :
      (patch : MountPodPatch) (mps : List MountPodPatch)
      → ((mpp mp : MountPodPatch) → field (merge mpp mp) ≡ override (field mpp) (field mp))
      → field (merge_all lib pvc patch mps)
        ≡ override (field patch) (last_some (map field (chosen lib pvc mps)))
  unfolding merge_all chosen last_some
  merge_all-field patch [] merges = refl
  merge_all-field patch (mp ∷ mps) merges = elim (Bool-cases (selected lib pvc mp.pvc_selector)) [
    | inl takes ↦ rw takes (
        merge_all-field (merge patch (deep_copy mp)) mps merges
        ∙ ap (λ x. override x (last_some (map field (chosen lib pvc mps))))
            (merges patch (deep_copy mp))
        ∙ override-last (field patch) (field (deep_copy mp)) (map field (chosen lib pvc mps)))
    | inr passes ↦ rw passes (merge_all-field patch mps merges)
  ]

  merge_all-fixed :
      (patch : MountPodPatch) (mps : List MountPodPatch)
      → ((mpp mp : MountPodPatch) → field (merge mpp mp) ≡ field mpp)
      → field (merge_all lib pvc patch mps) ≡ field patch
  unfolding merge_all
  merge_all-fixed patch [] merges = refl
  merge_all-fixed patch (mp ∷ mps) merges = elim (Bool-cases (selected lib pvc mp.pvc_selector)) [
    | inl takes ↦
        rw takes
          (merge_all-fixed (merge patch (deep_copy mp)) mps merges ∙ merges patch (deep_copy mp))
    | inr passes ↦ rw passes (merge_all-fixed patch mps merges)
  ]

-- The field of a merged patch is that of the last patch which sets it.
abbrev Latest {ℓ} :
    {A : Type ℓ} → (MountPodPatch → Option A) → MountPodPatch → List MountPodPatch → Type ℓ
Latest field patch mps = field patch ≡ last_some (map field mps)

pub record IsMerged (patch : MountPodPatch) (mps : List MountPodPatch) : Type 0 where
  pub host_network : Latest (λ p. p.host_network) patch mps
  pub host_pid : Latest (λ p. p.host_pid) patch mps
  pub liveness_probe : Latest (λ p. p.liveness_probe) patch mps
  pub readiness_probe : Latest (λ p. p.readiness_probe) patch mps
  pub lifecycle : Latest (λ p. p.lifecycle) patch mps
  pub resources : Latest (λ p. p.resources) patch mps
  pub labels : patch.labels ≡ override (some []) (last_some (map (λ p. p.labels) mps))
  pub annotations :
      patch.annotations ≡ override (some []) (last_some (map (λ p. p.annotations) mps))
  pub startup_probe : patch.startup_probe ≡ none

override-none : {A : Type 0} (o : Option A) → override none o ≡ o
override-none none = refl
override-none (some a) = refl

-- Of the fields of the merged patch, the host's network and process table, the liveness and the
-- readiness probe, the lifecycle, the resources, the labels and the annotations are as in the last
-- patch that selects the claim and sets them; the startup probe is never set.
pub merge_all-IsMerged :
    (lib : PatchLibrary) (pvc : Option Pvc) (mps : List MountPodPatch)
    → IsMerged (merge_all lib pvc no_patch mps) (chosen lib pvc mps)
unfolding merge
merge_all-IsMerged lib pvc mps = record {
  host_network =
      merge_all-field lib pvc (λ p. p.host_network) no_patch mps (λ a b. refl) ∙ override-none _;
  host_pid = merge_all-field lib pvc (λ p. p.host_pid) no_patch mps (λ a b. refl) ∙ override-none _;
  liveness_probe =
      merge_all-field lib pvc (λ p. p.liveness_probe) no_patch mps (λ a b. refl) ∙ override-none _;
  readiness_probe =
      merge_all-field lib pvc (λ p. p.readiness_probe) no_patch mps (λ a b. refl) ∙ override-none _;
  lifecycle =
      merge_all-field lib pvc (λ p. p.lifecycle) no_patch mps (λ a b. refl) ∙ override-none _;
  resources =
      merge_all-field lib pvc (λ p. p.resources) no_patch mps (λ a b. refl) ∙ override-none _;
  labels = merge_all-field lib pvc (λ p. p.labels) no_patch mps (λ a b. refl);
  annotations = merge_all-field lib pvc (λ p. p.annotations) no_patch mps (λ a b. refl);
  startup_probe = merge_all-fixed lib pvc (λ p. p.startup_probe) no_patch mps (λ a b. refl);
}
