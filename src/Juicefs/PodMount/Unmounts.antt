-- ===== src/Juicefs/PodMount/Unmounts.antt =====
-- The loop of UmountTarget of pkg/juicefs/mount/pod_mount.go.
use juicedata_juicefs_csi_dr.Prelude.{
  ℕ, zero, suc, ◌≡◌, refl, inl, inr, true, false, Bool, ◌∷◌, Str, Bool-cases, if◌then◌else◌, ap,
  sym, ◌∙◌,
}
use juicedata_juicefs_csi_dr.Kube.{
  Env, Trace, umounted, UmountOutput, ok, M, pure, fail, other, umount, not-err-ok, not-diverged-ok,
}
use juicedata_juicefs_csi_dr.Util.Mounts.{says_not_mounted}
use juicedata_juicefs_csi_dr.Juicefs.PodMount.Refs.{umount_all}

-- What an unmount is followed by.
abbrev after_umount : Bool → Str → M (Unit {0}) → M (Unit {0})
after_umount failed output rest = elim failed [
  | false ↦ rest
  | true ↦ if says_not_mounted output then pure tt else fail (other "Could not lazy unmount")
]

first_umount :
    (fuel : ℕ) (target : Str) (env : Env) (t : Trace)
    → let out = env.umount_reply t target in
      umount_all (suc fuel) target env t
      ≡ after_umount out.failed out.output (umount_all fuel target) env (umounted target out ∷ t)
unfolding umount_all umount
first_umount fuel target env t = refl

-- The target is mounted `n` times: that many unmounts succeed, and the next one says that nothing
-- is mounted there.
pub data MountedTimes (env : Env) (target : Str) : ℕ → Trace → Type 0 where
  unmounted :
      {t : Trace}
      → (env.umount_reply t target).failed ≡ true
      → says_not_mounted (env.umount_reply t target).output ≡ true
      → MountedTimes env target 0 t
  once_more :
      {n : ℕ} {t : Trace}
      → (env.umount_reply t target).failed ≡ false
      → MountedTimes env target n (umounted target (env.umount_reply t target) ∷ t)
      → MountedTimes env target (suc n) t

-- However often the target is mounted, the loop ends well, after one round more.
pub umount_all-ends :
    (n : ℕ) (target : Str) (env : Env) (t : Trace)
    → MountedTimes env target n t
    → (umount_all (suc n) target env t).0 ≡ ok tt
umount_all-ends zero target env t (unmounted failed says) =
    ap (λ x. x.0) (first_umount 0 target env t) ∙ last (env.umount_reply t target).failed failed
  where
    last :
        (b : Bool)
        → b ≡ true
        → (after_umount b
            (env.umount_reply t target).output
            (umount_all 0 target)
            env
            (umounted target (env.umount_reply t target) ∷ t)).0
          ≡ ok tt
    last true e = rw says refl
    last false e = absurd (cc)
umount_all-ends (suc n) target env t (once_more gone rest) =
    ap (λ x. x.0) (first_umount (suc n) target env t)
    ∙ ap
        (λ b.
          (after_umount b (env.umount_reply t target).output (umount_all (suc n) target) env
            (umounted target (env.umount_reply t target) ∷ t)).0)
        gone
    ∙ umount_all-ends n target env _ rest

-- The last unmount failed, and said that nothing was mounted there.
abbrev pub EndsUnmounted : Str → Trace → Type 0
EndsUnmounted target t =
    (out : UmountOutput) × (before : Trace) × (t ≡ umounted target out ∷ before)
    × (out.failed ≡ true)
    × (says_not_mounted out.output ≡ true)

after_umount-EndsUnmounted :
    (b : Bool) (target : Str) (out : UmountOutput) (rest : M (Unit {0})) (env : Env) (t : Trace)
    → out.failed ≡ b
    → (after_umount b out.output rest env (umounted target out ∷ t)).0 ≡ ok tt
    → ((rest env (umounted target out ∷ t)).0 ≡ ok tt
        → EndsUnmounted target (rest env (umounted target out ∷ t)).1)
    → EndsUnmounted target (after_umount b out.output rest env (umounted target out ∷ t)).1
after_umount-EndsUnmounted false target out rest env t e h later = later h
after_umount-EndsUnmounted true target out rest env t e h later =
    elim (Bool-cases (says_not_mounted out.output)) [
      | inl says ↦ rw says (out, t, refl, e, says)
      | inr silent ↦ absurd (not-err-ok (rw silent at h))
    ]

no_rounds : (target : Str) (env : Env) (t : Trace) → (umount_all 0 target env t).0 ≡ ok tt → ⊥
unfolding umount_all
no_rounds target env t h = not-diverged-ok h

-- The target is not left mounted: the loop ends well only where the last unmount found nothing.
pub umount_all-EndsUnmounted :
    (fuel : ℕ) (target : Str) (env : Env) (t : Trace)
    → (umount_all fuel target env t).0 ≡ ok tt
    → EndsUnmounted target (umount_all fuel target env t).1
umount_all-EndsUnmounted zero target env t h = absurd (no_rounds target env t h)
umount_all-EndsUnmounted (suc fuel) target env t h =
    let out = env.umount_reply t target in
    rw (first_umount fuel target env t) (
      after_umount-EndsUnmounted out.failed target out (umount_all fuel target) env t refl
        (ap (λ x. x.0) (sym (first_umount fuel target env t)) ∙ h)
        (umount_all-EndsUnmounted fuel target env (umounted target out ∷ t)))
