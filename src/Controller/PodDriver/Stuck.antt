-- ===== src/Controller/PodDriver/Stuck.antt =====
-- checkMountPodStuck and doAbortFuse of pkg/controller/pod_driver.go, and CleanUpCache's wait.
use juicedata_juicefs_csi_dr.Prelude.{ℕ, ◌*◌, ◌^◌, none, some, ltb, if◌then◌else◌}
use juicedata_juicefs_csi_dr.Kube.{Pod}

-- time.Minute: a Duration counts nanoseconds.
abbrev pub minute : ℕ
minute = 60 * 10 ^ 9

-- The time, in nanoseconds, after which a pod that is still terminating counts as stuck. The grace
-- period is a number of seconds; `time.Duration` takes it for one of nanoseconds.
unfoldable pub stuck_timeout : Pod → ℕ
stuck_timeout pod = elim pod.grace_period [
  | none ↦ minute
  | some seconds ↦ if ltb minute (seconds * 2) then seconds * 2 else minute
]
