-- ===== src/Util/Jobs.antt =====
-- pkg/util/job.go: when a job is over, and when the driver has to delete it.
use juicedata_juicefs_csi_dr.Prelude.{
  ℕ, ◌+◌, Bool, true, false, not, ◌&&◌, none, some, Str, lit, str_eq, any, ltb, if◌then◌else◌,
}
use juicedata_juicefs_csi_dr.Kube.{Condition, Job, condition_true}

unfoldable pub has_condition : Str → Condition → Bool
has_condition kind cond = str_eq cond.status condition_true && str_eq cond.kind kind

unfoldable pub is_job_completed : Job → Bool
is_job_completed job = any (has_condition (lit "Complete")) job.conditions

unfoldable pub is_job_failed : Job → Bool
is_job_failed job = any (has_condition (lit "Failed")) job.conditions

unfoldable pub is_job_should_be_recycled : ℕ → Job → Bool
is_job_should_be_recycled now job =
    if not (is_job_completed job) && not (is_job_failed job) then false else elim job.ttl_seconds [
      | none ↦ true
      | some ttl ↦ elim job.completion_time [
        | none ↦ false
        | some completed ↦ ltb (completed + ttl) now
      ]
    ]
