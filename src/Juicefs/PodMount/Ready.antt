-- ===== src/Juicefs/PodMount/Ready.antt =====
-- What JMount of pkg/juicefs/mount/pod_mount.go waits for.
use juicedata_juicefs_csi_dr.Prelude.{
  ℕ, ◌≡◌, refl, sym, ap, subst, ◌∙◌, Option, Str, ◌&&◌, str_eq, [],
}
use juicedata_juicefs_csi_dr.Kube.{
  Env, Err, Trace, Result, ok, err, diverged, other, M, ◌>>◌, attempt, settle, continue, pure, fail,
  lift, bind-ok, ok-injective, not-err-ok, not-diverged-ok, when, ◌>>=◌,
}
use juicedata_juicefs_csi_dr.Util.Pods.{wait_until_mount_ready}
use juicedata_juicefs_csi_dr.Util.Pods.Laws.{ReadyAfter, wait-ReadyAfter}
use juicedata_juicefs_csi_dr.Juicefs.Settings.{JfsSetting, AppInfo, Builder}
use juicedata_juicefs_csi_dr.Juicefs.PodMount.Jobs.{get_err_container_log}
use juicedata_juicefs_csi_dr.Juicefs.PodMount.Mount.{
  j_mount, wait_mounted, gen_mount_pod_name, label_app_pod, create_or_add_ref, set_uuid_annotation,
}

refused {ℓ} :
    {A : Type ℓ} (r : Result A × Trace) (e : Err) (env : Env)
    → (continue (settle r) (λ r'. fail {A = Unit {0}} e) env).0 ≡ ok tt
    → ⊥
refused (ok a, t) e env h = not-err-ok h
refused (err e', t) e env h = not-err-ok h
refused (diverged, t) e env h = not-diverged-ok h

abbrev after_wait : Str → Result (Unit {0}) → M (Unit {0})
after_wait pod_name (ok u) = pure tt
after_wait pod_name (err e) =
    attempt (get_err_container_log pod_name) >> fail (other "mount isn't ready")
after_wait pod_name diverged = lift diverged

waited-ok :
    (r : Result (Unit {0}) × Trace) (pod_name : Str) (env : Env)
    → (continue (settle r) (after_wait pod_name) env).0 ≡ ok tt
    → r.0 ≡ ok tt
waited-ok (ok u, t) pod_name env h = refl
waited-ok (err e, t) pod_name env h =
    absurd (refused (get_err_container_log pod_name env t) _ env h)
waited-ok (diverged, t) pod_name env h = absurd (not-diverged-ok h)

-- A wait that is over without an error leaves the history of the wait alone.
waited-trace :
    (r : Result (Unit {0}) × Trace) (pod_name : Str) (env : Env)
    → r.0 ≡ ok tt
    → continue (settle r) (after_wait pod_name) env ≡ (ok tt, r.1)
waited-trace (ok u, t) pod_name env h = refl
waited-trace (err e, t) pod_name env h = absurd (not-err-ok h)
waited-trace (diverged, t) pod_name env h = absurd (not-diverged-ok h)

wait_mounted-ReadyAfter :
    (fuel : ℕ) (setting : JfsSetting) (pod_name : Str) (env : Env) (t : Trace)
    → (wait_mounted fuel setting pod_name env t).0 ≡ ok tt
    → ReadyAfter setting.mount_path t (wait_mounted fuel setting pod_name env t).1
unfolding wait_mounted
wait_mounted-ReadyAfter fuel setting pod_name env t h =
    let r = wait_until_mount_ready fuel setting.mount_path env t in
    let over = waited-ok r pod_name env h in
    subst (λ x. ReadyAfter setting.mount_path t x.1) (sym (waited-trace r pod_name env over))
      (wait-ReadyAfter fuel setting.mount_path env t over)

-- What follows the wait.
abbrev annotate_uuid : (Str → M Str) → JfsSetting → Str → M (Unit {0})
annotate_uuid get_uuid s pod_name =
    when (s.clean_cache && str_eq s.uuid [])
      do uuid ← get_uuid s.source; set_uuid_annotation pod_name uuid

-- What a mount pod has gone through when its mount succeeds: it was named, the app pod labelled,
-- the pod created or found and given its reference; and since then the wait has come to find the
-- root inode at the mount path, and has stored its device. The uuid is noted last, where it is wanted.
pub record Readied (fuel : ℕ) (b : Builder) (get_uuid : Str → M Str) (app : Option AppInfo)
    (setting s : JfsSetting) (env : Env) (t t' : Trace) : Type 0 where
  pub pod_name : Str
  pub after_name : Trace
  pub chosen : gen_mount_pod_name b setting env t ≡ (ok pod_name, after_name)
  pub after_label : Trace
  pub labelled : label_app_pod app env after_name ≡ (ok tt, after_label)
  pub after_create : Trace
  pub created : create_or_add_ref fuel b pod_name setting app env after_label ≡ (ok s, after_create)
  pub after_wait : Trace
  pub ready : ReadyAfter s.mount_path after_create after_wait
  pub annotated : annotate_uuid get_uuid s pod_name env after_wait ≡ (ok tt, t')

pub pair-ok {ℓ} : {A : Type ℓ} (r : Result A × Trace) (a : A) → r.0 ≡ ok a → r ≡ (ok a, r.1)
pair-ok (r, t) a h = ap (λ x. (x, t)) h

-- A JMount that succeeds has found the root inode at the mount path of the settings that it leaves,
-- after it has seen to the mount pod.
pub j_mount-Readied :
    (fuel : ℕ) (b : Builder) (get_uuid : Str → M Str) (app : Option AppInfo)
    (setting s : JfsSetting) (env : Env) (t t' : Trace)
    → j_mount fuel b get_uuid app setting env t ≡ (ok s, t')
    → Readied fuel b get_uuid app setting s env t t'
unfolding j_mount
j_mount-Readied fuel b get_uuid app setting s env t t' whole =
    let h = ap (λ x. x.0) whole in
    let (pod_name, e₁, h₁) = bind-ok (gen_mount_pod_name b setting env t) _ env s h in
    let (u, e₂, h₂) = bind-ok (label_app_pod app env _) _ env s (ap (λ x. x.0) (sym h₁) ∙ h) in
    let k₂ = ap (λ x. x.0) (sym h₂) ∙ ap (λ x. x.0) (sym h₁) ∙ h in
    let (named, e₃, h₃) =
      bind-ok (create_or_add_ref fuel b pod_name setting app env _) _ env s k₂ in
    let k₃ = ap (λ x. x.0) (sym h₃) ∙ k₂ in
    let (u', ready, h₄) = bind-ok (wait_mounted fuel named pod_name env _) _ env s k₃ in
    let k₄ = ap (λ x. x.0) (sym h₄) ∙ k₃ in
    let (u'', e₅, h₅) = bind-ok _ (λ x. pure named) env s k₄ in
    let last = sym h₅ ∙ sym h₄ ∙ sym h₃ ∙ sym h₂ ∙ sym h₁ ∙ whole in
    let same : named ≡ s = ok-injective (ap (λ x. x.0) (sym h₅) ∙ k₄) in
    subst (λ s'. Readied fuel b get_uuid app setting s' env t t') same
      (record {
        pod_name = pod_name;
        after_name = _;
        chosen = pair-ok _ pod_name e₁;
        after_label = _;
        labelled = pair-ok _ tt e₂;
        after_create = _;
        created = pair-ok _ named e₃;
        after_wait = _;
        ready = wait_mounted-ReadyAfter fuel named pod_name env _ ready;
        annotated = pair-ok _ tt e₅ ∙ ap (λ x. (ok tt, x.1)) last;
      })
