-- ===== src/Controller/AppHooks/Hooked.antt =====
-- Which commands Reconcile of pkg/controller/app_controller.go runs in app pods.
use juicedata_juicefs_csi_dr.Prelude.{
  ℕ, suc, ◌≡◌, refl, true, not, Option, none, some, List, [], ◌∷◌, Str, get_elem?, is_empty, arith,
  ◌||◌, contains, lit, if◌then◌else◌,
}
use juicedata_juicefs_csi_dr.Kube.{
  Env, Trace, Keeps, pure, ◌>>=◌, bind-Keeps, attempt-Keeps, pure-Keeps, fail-Keeps, if-Keeps,
  unless-Keeps, Result, ok, err, diverged, bind_yield-Keeps, is_not_found, fail, lift,
  attempt-Yields,
}
use juicedata_juicefs_csi_dr.Util.Mounts.{says_not_mounted}
use juicedata_juicefs_csi_dr.Controller.AppQueue.{AppPod, AppContainer, is_sidecar, should_in_queue}
use juicedata_juicefs_csi_dr.Controller.Queued.{InQueue, should_in_queue_iff}
use juicedata_juicefs_csi_dr.Controller.AppHooks.{
  AppClient, ExecOutput, outcome_of, umount_fuse_sidecar, umount_containers, umount_fuse_sidecars,
  reconcile_pod, reconcile_app,
}

-- A command is the pre-stop hook of a sidecar in a pod that is done.
pub record IsHook (pod : AppPod) (c : AppContainer) (cmd : List Str) : Type 0 where
  pub done : InQueue pod
  pub position : ℕ
  pub found : get_elem? pod.containers position ≡ some c
  pub sidecar : is_sidecar c.name ≡ true
  pub hook : c.pre_stop ≡ some cmd

-- The hooks keep what is said of the history: those of the pod that was answered, in this very pod.
abbrev pub HooksKeep : Env → (Trace → Type 0) → AppClient → Str → Str → Type 0
HooksKeep env P client name namespace =
    (t : Trace) (pod : AppPod) (c : AppContainer) (cmd : List Str)
    → (client.get_pod name namespace env t).0 ≡ ok pod
    → IsHook pod c cmd
    → Keeps env P (client.execute pod.name pod.namespace c.name cmd)

module _ {env : Env} {P : Trace → Type 0} where
  failure-Keeps :
      (failure : Option Str) (stderr : Str)
      → Keeps env P (outcome_of (record { failure = failure; stderr = stderr }))
  unfolding outcome_of
  failure-Keeps none stderr = pure-Keeps tt
  failure-Keeps (some text) stderr =
      unless-Keeps (says_not_mounted stderr || contains text (lit "exit code 137")) tt
        (λ _. fail-Keeps _)

  outcome-Keeps : (out : ExecOutput) → Keeps env P (outcome_of out)
  unfolding outcome_of
  outcome-Keeps out = failure-Keeps out.failure out.stderr

  command-Keeps :
      (client : AppClient) (pod : AppPod) (c : AppContainer) (cmd : Option (List Str))
      → ((cmd' : List Str)
          → cmd ≡ some cmd'
          → Keeps env P (client.execute pod.name pod.namespace c.name cmd'))
      → Keeps env P {A = Unit {0}} (elim cmd [
        | none ↦ pure tt
        | some cmd' ↦ client.execute pod.name pod.namespace c.name cmd' >>= outcome_of
      ])
  command-Keeps client pod c none h = pure-Keeps tt
  command-Keeps client pod c (some cmd) h = bind-Keeps (h cmd refl) outcome-Keeps

  -- The containers from the position on.
  containers-Keeps :
      (client : AppClient) (pod : AppPod) (cs : List AppContainer)
      → ((i : ℕ) (c : AppContainer) (cmd : List Str)
          → get_elem? cs i ≡ some c
          → is_sidecar c.name ≡ true
          → c.pre_stop ≡ some cmd
          → Keeps env P (client.execute pod.name pod.namespace c.name cmd))
      → Keeps env P (umount_containers client pod cs)
  unfolding umount_containers umount_fuse_sidecar
  containers-Keeps client pod [] h = pure-Keeps tt
  containers-Keeps client pod (c ∷ cs) h =
      bind-Keeps
        (if-Keeps (is_sidecar c.name)
          (λ sidecar.
            unless-Keeps (is_empty c.name) tt
              (λ _. command-Keeps client pod c c.pre_stop (λ cmd e. h 0 c cmd refl sidecar e)))
          (λ _. pure-Keeps tt))
        (λ u. containers-Keeps client pod cs (λ i. h (suc i)))

  pod-Keeps :
      (client : AppClient) (pod : AppPod)
      → ((c : AppContainer) (cmd : List Str)
          → IsHook pod c cmd
          → Keeps env P (client.execute pod.name pod.namespace c.name cmd))
      → Keeps env P (reconcile_pod client pod)
  unfolding reconcile_pod umount_fuse_sidecars
  pod-Keeps client pod hooks = unless-Keeps (not (should_in_queue (some pod))) tt (λ queued.
      containers-Keeps client pod pod.containers (λ i c cmd found sidecar hook.
        hooks c cmd (record {
          done = (should_in_queue_iff pod).0 (ground arith);
          position = i;
          found = found;
          sidecar = sidecar;
          hook = hook;
        })))

-- What is kept by the request for the pod, and by the pre-stop hooks of the sidecars of the pod that
-- is answered, each run in its container of this pod and only if the pod is done, is kept by
-- Reconcile: it does nothing else.
pub reconcile_app-Keeps :
    (env : Env) (P : Trace → Type 0) (client : AppClient) (name namespace : Str)
    → Keeps env P (client.get_pod name namespace)
    → HooksKeep env P client name namespace
    → Keeps env P (reconcile_app client name namespace)
unfolding reconcile_app
reconcile_app-Keeps env P client name namespace get hooks =
    bind_yield-Keeps (attempt-Keeps get) (attempt-Yields (client.get_pod name namespace))
      answered-Keeps
  where
    answered-Keeps :
        (r : Result AppPod)
        → ((pod : AppPod)
            → r ≡ ok pod
            → (t : Trace) × ((client.get_pod name namespace env t).0 ≡ ok pod))
        → Keeps env P (elim r [
          | ok pod ↦ reconcile_pod client pod
          | err e ↦ if is_not_found e then pure tt else fail e
          | diverged ↦ lift diverged
        ])
    answered-Keeps (ok pod) asked =
        let (t, answer) = asked pod refl in
        pod-Keeps client pod (λ c cmd hook. hooks t pod c cmd answer hook)
    answered-Keeps (err e) asked =
        if-Keeps (is_not_found e) (λ _. pure-Keeps tt) (λ _. fail-Keeps e)
    answered-Keeps diverged asked = record { kept = λ t p. p }
