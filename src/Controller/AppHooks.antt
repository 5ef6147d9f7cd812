-- ===== src/Controller/AppHooks.antt =====
-- Reconcile of pkg/controller/app_controller.go: the pre-stop hooks of the sidecars are run in app
-- pods that are done.
pub mod Hooked
use juicedata_juicefs_csi_dr.Prelude.{
  Bool, true, false, not, ◌||◌, Option, none, some, List, [], ◌∷◌, Str, lit, str_eq, contains,
  is_empty, if◌then◌else◌,
}
use juicedata_juicefs_csi_dr.Kube.{
  Err, Result, ok, err, diverged, other, M, ◌>>=◌, ◌>>◌, pure, fail, lift, attempt, is_not_found,
}
use juicedata_juicefs_csi_dr.Util.Mounts.{says_not_mounted}
use juicedata_juicefs_csi_dr.Controller.AppQueue.{AppPod, AppContainer, is_sidecar, should_in_queue}

-- What a command in a container tells: the text of its error, if it failed, and its error output.
pub record ExecOutput : Type 0 where
  pub failure : Option Str
  pub stderr : Str

-- GetPod, for an app pod, and ExecuteInContainer of pkg/k8sclient/client.go.
pub record AppClient : Type 0 where
  pub get_pod : Str → Str → M AppPod
  pub execute : Str → Str → Str → List Str → M ExecOutput

unfoldable pub outcome_of : ExecOutput → M (Unit {0})
unfolding contains says_not_mounted
outcome_of out = elim out.failure [
  | none ↦ pure tt
  | some text ↦
      if says_not_mounted out.stderr || contains text (lit "exit code 137")
      then pure tt
      else fail (other "exec")
]

unfoldable pub umount_fuse_sidecar : AppClient → AppPod → AppContainer → M (Unit {0})
unfolding outcome_of
umount_fuse_sidecar client pod c = if is_empty c.name then pure tt else elim c.pre_stop [
  | none ↦ pure tt
  | some cmd ↦ client.execute pod.name pod.namespace c.name cmd >>= outcome_of
]

unfoldable pub umount_containers : AppClient → AppPod → List AppContainer → M (Unit {0})
umount_containers client pod [] = pure tt
umount_containers client pod (c ∷ cs) =
    (if is_sidecar c.name then umount_fuse_sidecar client pod c else pure tt)
    >> umount_containers client pod cs

unfoldable pub umount_fuse_sidecars : AppClient → AppPod → M (Unit {0})
umount_fuse_sidecars client pod = umount_containers client pod pod.containers

unfoldable pub reconcile_pod : AppClient → AppPod → M (Unit {0})
reconcile_pod client pod =
    if not (should_in_queue (some pod)) then pure tt else umount_fuse_sidecars client pod

unfoldable pub reconcile_app : AppClient → Str → Str → M (Unit {0})
reconcile_app client name namespace = do
  r ← attempt (client.get_pod name namespace)
  elim r [
    | ok pod ↦ reconcile_pod client pod
    | err e ↦ if is_not_found e then pure tt else fail e
    | diverged ↦ lift diverged
  ]

-- The guards of SetupWithManager: an update without a new version is skipped, and deletions are.
unfoldable pub on_create : AppPod → Bool
on_create pod = should_in_queue (some pod)

unfoldable pub on_update : Str → Str → AppPod → Bool
unfolding str_eq
on_update new_version old_version pod =
    if str_eq new_version old_version then false else should_in_queue (some pod)
