-- ===== src/Controller/AppQueue.antt =====
-- ShouldInQueue of pkg/controller/app_controller.go: the app pods whose sidecar is to be unmounted.
use juicedata_juicefs_csi_dr.Prelude.{
  Bool, true, false, not, ◌&&◌, ◌||◌, Option, none, some, List, [], ◌∷◌, Str, lit, str_eq, contains,
  any, length, ltb, GoMap, if◌then◌else◌,
}
use juicedata_juicefs_csi_dr.Util.Names.{check_expect_value}

-- The state of a container: State.Terminated and State.Running are nil or not.
pub record SidecarStatus : Type 0 where
  pub name : Str
  pub terminated : Bool
  pub running : Bool

-- A container with the command of its pre-stop hook, if it has one.
pub record AppContainer : Type 0 where
  pub name : Str
  pub pre_stop : Option (List Str)

-- The parts of an app pod that are looked at.
pub record AppPod : Type 0 where
  pub name : Str
  pub namespace : Str
  pub labels : GoMap Str
  pub restart_policy : Str
  pub containers : List AppContainer
  pub phase : Str
  pub statuses : List SidecarStatus

abbrev pub inject_sidecar_disable : Str
inject_sidecar_disable = lit "disable.sidecar.juicefs.com/inject"

unfoldable pub is_sidecar : Str → Bool
is_sidecar name = contains name (lit "jfs-mount")

-- No container of the app has yet to end, and no client has ended.
unfoldable pub all_settled : List SidecarStatus → Bool
all_settled [] = true
all_settled (s ∷ rest) =
    let later = all_settled rest in
    if not (is_sidecar s.name) && not s.terminated
    then false
    else if is_sidecar s.name && not s.running
    then false
    else later

unfoldable pub should_in_queue : Option AppPod → Bool
should_in_queue none = false
should_in_queue (some pod) =
    if check_expect_value pod.labels inject_sidecar_disable (lit "true")
    then false
    else if str_eq pod.restart_policy (lit "Always")
    then false
    else if not (any (λ c. is_sidecar c.name) pod.containers)
    then false
    else if not (str_eq pod.phase (lit "Running")) || ltb (length pod.statuses) 2
    then false
    else all_settled pod.statuses
