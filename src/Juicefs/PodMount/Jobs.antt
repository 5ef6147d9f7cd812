-- ===== src/Juicefs/PodMount/Jobs.antt =====
-- The jobs of pkg/juicefs/mount/pod_mount.go: JCreateVolume, JDeleteVolume, CleanCache, and the wait
-- for their end.
use juicedata_juicefs_csi_dr.Prelude.{
  ℕ, zero, suc, Bool, true, false, Option, none, some, List, [], ◌∷◌, Str, lit, str_eq,
  if◌then◌else◌,
}
use juicedata_juicefs_csi_dr.Kube.{
  Pod, Job, Secret, ContainerStatus, Err, canceled, deadline_exceeded, ok, err, diverged, other, M,
  ◌>>=◌, ◌>>◌, pure, fail, lift, when, attempt, ask, is_not_found, sleep, get_pod, list_pod,
  get_pod_log, get_secret, create_secret, update_secret, get_job, create_job, delete_job,
  retry_on_conflict,
}
use juicedata_juicefs_csi_dr.Util.Jobs.{is_job_completed, is_job_should_be_recycled}
use juicedata_juicefs_csi_dr.Juicefs.Settings.{JfsSetting, Builder}

-- createOrUpdateSecret: an old secret keeps all but its data.
unfoldable pub write_secret : Secret → M (Unit {0})
write_secret secret = do
  namespace ← ask (λ env t. env.mount_namespace)
  r ← attempt (get_secret secret.name namespace)
  elim r [
    | ok old ↦ update_secret (record old { string_data = secret.string_data })
    | err e ↦ if is_not_found e then create_secret secret else fail e
    | diverged ↦ lift diverged
  ]

unfoldable pub create_or_update_secret : Secret → M (Unit {0})
create_or_update_secret secret = retry_on_conflict (write_secret secret)

unfoldable pub is_complete_status : ContainerStatus → Bool
is_complete_status cn = elim cn.terminated [
  | none ↦ false
  | some (exit_code, reason) ↦ str_eq reason (lit "Completed")
]

-- The first container that does not pass, of the init containers and then of the others.
unfoldable pub first_failing : (ContainerStatus → Bool) → List ContainerStatus → Option Str
first_failing passes [] = none
first_failing passes (cn ∷ cns) = if passes cn then first_failing passes cns else some cn.name

unfoldable pub log_of_first : Pod → Option Str → M Str → M Str
log_of_first pod none rest = rest
log_of_first pod (some container) rest = get_pod_log pod.name pod.namespace container

unfoldable pub failing_container_log : (ContainerStatus → Bool) → Str → M Str
failing_container_log passes pod_name = do
  namespace ← ask (λ env t. env.mount_namespace)
  pod ← get_pod pod_name namespace
  log_of_first pod (first_failing passes pod.init_container_statuses)
      (log_of_first pod (first_failing passes pod.container_statuses) (pure []))

-- getErrContainerLog
unfoldable pub get_err_container_log : Str → M Str
get_err_container_log pod_name = failing_container_log (λ cn. cn.ready) pod_name

-- getNotCompleteCnLog
unfoldable pub get_not_complete_cn_log : Str → M Str
get_not_complete_cn_log pod_name = failing_container_log is_complete_status pod_name

unfoldable pub log_of_pods : List Pod → M (Unit {0})
log_of_pods [] = fail (other "get pod from job")
log_of_pods (pod ∷ pods) = do
  attempt (get_not_complete_cn_log pod.name)
  fail (other "job isn't completed")

-- The error of a job that did not complete in time.
unfoldable pub fail_incomplete : Str → M (Unit {0})
fail_incomplete job_name = do
  namespace ← ask (λ env t. env.mount_namespace)
  r ← attempt (
      list_pod (record {
        namespace = namespace;
        labels = (lit "job-name", job_name) ∷ [];
        fields = [];
        keys = [];
      }))
  elim r [
    | ok pods ↦ log_of_pods pods
    | err e ↦ fail (other "get pod from job")
    | diverged ↦ lift diverged
  ]

abbrev pub context_ended : Option Err → Bool
context_ended (some canceled) = true
context_ended (some deadline_exceeded) = true
context_ended _ = false

unfoldable pub finish_job : Job → Str → M (Unit {0})
finish_job job job_name = do
  now ← ask (λ env t. env.now t)
  namespace ← ask (λ env t. env.mount_namespace)
  when (is_job_should_be_recycled now job) do attempt (delete_job job_name namespace); pure tt

unfoldable pub after_job_error : Str → Err → M (Unit {0})
after_job_error job_name e = if is_not_found e then pure tt else do
  c ← ask (λ env t. env.context_error t)
  if context_ended c then fail_incomplete job_name else fail (other "Get job failed")

-- waitUtilJobCompleted, for `fuel` rounds; the deadline of 40 seconds is the context's.
unfoldable pub wait_until_job_completed : ℕ → Str → M (Unit {0})
wait_until_job_completed zero job_name = lift diverged
wait_until_job_completed (suc fuel) job_name = do
  namespace ← ask (λ env t. env.mount_namespace)
  r ← attempt (get_job job_name namespace)
  elim r [
    | err e ↦ after_job_error job_name e
    | ok job ↦ elim (is_job_completed job) [
      | true ↦ finish_job job job_name
      | false ↦ do sleep; wait_until_job_completed fuel job_name
    ]
    | diverged ↦ lift diverged
  ]

unfoldable pub get_or_create_job : Job → M Job
get_or_create_job job = do
  r ← attempt (get_job job.name job.namespace)
  elim r [
    | ok exist ↦ pure exist
    | err e ↦ if is_not_found e then create_job job else fail e
    | diverged ↦ lift diverged
  ]

-- Wait for the job; one that fails is deleted, and its error returned.
unfoldable pub wait_or_delete : ℕ → Job → M (Unit {0})
wait_or_delete fuel job = do
  r ← attempt (wait_until_job_completed fuel job.name)
  elim r [
    | ok u ↦ pure tt
    | err e ↦ do attempt (delete_job job.name job.namespace); fail e
    | diverged ↦ lift diverged
  ]

unfoldable pub run_job : ℕ → Builder → JfsSetting → Job → M (Unit {0})
run_job fuel b setting job = do
  exist ← get_or_create_job job
  create_or_update_secret (b.new_job_secret setting exist)
  wait_or_delete fuel job

unfoldable pub j_create_volume : ℕ → Builder → JfsSetting → M (Unit {0})
j_create_volume fuel b setting = run_job fuel b setting (b.new_create_volume_job setting)

unfoldable pub j_delete_volume : ℕ → Builder → JfsSetting → M (Unit {0})
j_delete_volume fuel b setting = run_job fuel b setting (b.new_delete_volume_job setting)

-- CleanCache, from the job on. An error of the wait is not returned.
unfoldable pub clean_cache : ℕ → Job → M (Unit {0})
clean_cache fuel job = do
  get_or_create_job job
  r ← attempt (wait_until_job_completed fuel job.name)
  elim r [
    | ok u ↦ pure tt
    | err e ↦ do attempt (delete_job job.name job.namespace); pure tt
    | diverged ↦ lift diverged
  ]
