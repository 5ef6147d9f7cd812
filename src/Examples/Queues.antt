-- ===== src/Examples/Queues.antt =====
-- The queue of app pods at a concrete input.
use juicedata_juicefs_csi_dr.Prelude.{
  ◌∷◌, [], true, false, none, some, lit, refl, any, contains, str_eq, lookup, Bool, ◌&&◌, ◌≡◌,
  arith,
}
use juicedata_juicefs_csi_dr.Util.Names.{check_expect_value}
use juicedata_juicefs_csi_dr.Controller.AppQueue.{AppPod, should_in_queue, is_sidecar, all_settled}
use juicedata_juicefs_csi_dr.Controller.Queued.{InQueue, should_in_queue_iff}
use juicedata_juicefs_csi_dr.Kube.{Trace, Keeps, pure-Keeps, pure, run, ran, ◌>>=◌}
use juicedata_juicefs_csi_dr.Controller.AppHooks.{AppClient, reconcile_app}
use juicedata_juicefs_csi_dr.Controller.AppHooks.Hooked.{HooksKeep, reconcile_app-Keeps}
use juicedata_juicefs_csi_dr.Examples.World.{empty_world}

-- A job whose container is done, beside the client.
abbrev done_pod : AppPod
done_pod = record {
  name = lit "job";
  namespace = lit "default";
  labels = (lit "app", lit "job") ∷ [];
  restart_policy = lit "Never";
  containers =
      record { name = lit "jfs-mount"; pre_stop = some (lit "umount" ∷ lit "/jfs" ∷ []) }
      ∷ record { name = lit "app"; pre_stop = none }
      ∷ [];
  phase = lit "Running";
  statuses =
      record { name = lit "app"; terminated = true; running = false }
      ∷ record { name = lit "jfs-mount"; terminated = false; running = true }
      ∷ [];
}

should_in_queue_iff_example : InQueue done_pod
unfolding should_in_queue check_expect_value str_eq any is_sidecar contains all_settled lookup
should_in_queue_iff_example = (should_in_queue_iff done_pod).0 refl

-- The commands that were run are those of sidecars; a command is noted behind its container.
unfoldable only_sidecars : Trace → Bool
only_sidecars [] = true
only_sidecars (ran (name ∷ cmd) out ∷ t) = is_sidecar name && only_sidecars t
only_sidecars (_ ∷ t) = only_sidecars t

abbrev OnlySidecars : Trace → Type 0
OnlySidecars t = only_sidecars t ≡ true

-- The pod is answered, and each command succeeds.
abbrev done_client : AppClient
done_client = record {
  get_pod = λ name namespace. pure done_pod;
  execute = λ pod namespace container cmd.
      run (container ∷ cmd) >>= λ out. pure (record { failure = none; stderr = [] });
}

hooks_keep : HooksKeep empty_world OnlySidecars done_client (lit "job") (lit "default")
unfolding run only_sidecars
hooks_keep t pod c cmd asked h = record {
  kept = λ t' only. let sidecar = h.sidecar in ground arith;
}

reconcile_app-Keeps_example :
    Keeps empty_world OnlySidecars (reconcile_app done_client (lit "job") (lit "default"))
reconcile_app-Keeps_example =
    reconcile_app-Keeps empty_world OnlySidecars done_client (lit "job") (lit "default")
      (pure-Keeps done_pod) hooks_keep
