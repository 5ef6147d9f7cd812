-- ===== src/Controller/PodDriver/Limits.antt =====
-- How long pkg/controller/pod_driver.go waits: the loop for a deletion, and checkMountPodStuck.
use juicedata_juicefs_csi_dr.Prelude.{ℕ, zero, suc, ◌*◌, ◌^◌, ◌≡◌, ◌≤◌, refl, some, arith}
use juicedata_juicefs_csi_dr.Kube.{Pod, Env, Trace, ok, diverged, get_pod}
use juicedata_juicefs_csi_dr.Controller.PodDriver.Redeploy.{wait_deleted, deletion_seen}
use juicedata_juicefs_csi_dr.Controller.PodDriver.Stuck.{minute, stuck_timeout}

-- Thirty times a thousand million.
abbrev pub half_minute : ℕ
half_minute = 30 * 10 ^ 9

-- For a grace period of up to 30 thousand million seconds, the time limit is one minute.
pub stuck_timeout-minute :
    (pod : Pod) (seconds : ℕ)
    → pod.grace_period ≡ some seconds
    → seconds ≤ half_minute
    → stuck_timeout pod ≡ minute
unfolding stuck_timeout
stuck_timeout-minute pod seconds h le = rw h (ground arith)

-- While the API server answers with the pod, the wait for its deletion does not end: no number of
-- rounds is enough.
pub wait_deleted-diverged :
    (fuel : ℕ) (pod : Pod) (env : Env) (t : Trace)
    → ((t : Trace) → (found : Pod) × (env.get_pod_reply t pod.name pod.namespace ≡ ok found))
    → (wait_deleted fuel pod env t).0 ≡ diverged
unfolding wait_deleted get_pod deletion_seen
wait_deleted-diverged zero pod env t h = refl
wait_deleted-diverged (suc fuel) pod env t h =
    let (found, e) = h t in rw e (wait_deleted-diverged fuel pod env _ h)
