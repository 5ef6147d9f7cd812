-- ===== src/Juicefs/PodMount/JobEnds.antt =====
-- How the waits for jobs end, in pkg/juicefs/mount/pod_mount.go.
use juicedata_juicefs_csi_dr.Prelude.{
  ℕ, ◌≡◌, refl, ◌∷◌, List, [], ap, sym, ◌∙◌, Str, Bool-cases, inl, inr, ◌⊎◌, zero, suc, Bool, true,
  false,
}
use juicedata_juicefs_csi_dr.Kube.{
  Env, Trace, Job, Err, deleted_job, Result, ok, err, diverged, M, ◌>>◌, continue, settle, attempt,
  pure, fail, lift, delete_job, Pod, bind-ok, other, list_pod, not_found, not-err-ok,
  not-diverged-ok, got_job, slept, sleep, get_job, attempt-known,
}
use juicedata_juicefs_csi_dr.Juicefs.PodMount.Jobs.{
  wait_until_job_completed, wait_or_delete, log_of_pods, fail_incomplete, after_job_error,
  get_not_complete_cn_log, context_ended, finish_job,
}
use juicedata_juicefs_csi_dr.Util.Jobs.{is_job_completed, is_job_should_be_recycled}

after_failure :
    (job : Job) (e e' : Err) (r : Result (Unit {0})) (env : Env) (t : Trace)
    → (continue
        (settle (r, deleted_job job.name job.namespace r ∷ t))
        (λ _. fail {A = Unit {0}} e')
        env).0
      ≡ err e
    → (continue
        (settle (r, deleted_job job.name job.namespace r ∷ t))
        (λ _. fail {A = Unit {0}} e')
        env).1
      ≡ deleted_job job.name job.namespace r ∷ t
after_failure job e e' (ok u) env t h = refl
after_failure job e e' (err x) env t h = refl
after_failure job e e' diverged env t h = refl

failed_wait :
    (job : Job) (e : Err) (env : Env) (x : Result (Unit {0}) × Trace)
    → let run =
        continue
          (settle x)
          (λ r. elim r as (λ _. M (Unit {0})) [
            | ok u ↦ pure tt
            | err e' ↦ do attempt (delete_job job.name job.namespace); fail e'
            | diverged ↦ lift diverged
          ])
          env in
      run.0 ≡ err e
      → (answer : Result (Unit {0})) × (before : Trace) × (run.1
          ≡ deleted_job job.name job.namespace answer ∷ before)
unfolding delete_job
failed_wait job e env (ok u, t) h = absurd (cc)
failed_wait job e env (err e', t) h = (_, t, after_failure job e e' _ env t h)
failed_wait job e env (diverged, t) h = absurd (cc)

-- A job whose wait fails is deleted: that is the last request.
pub wait_or_delete-deleted :
    (fuel : ℕ) (job : Job) (e : Err) (env : Env) (t : Trace)
    → (wait_or_delete fuel job env t).0 ≡ err e
    → (answer : Result (Unit {0})) × (before : Trace) × ((wait_or_delete fuel job env t).1
        ≡ deleted_job job.name job.namespace answer ∷ before)
unfolding wait_or_delete
wait_or_delete-deleted fuel job e env t h =
    failed_wait job e env (wait_until_job_completed fuel job.name env t) h

-- The pod list of a job that timed out only makes the text of an error.
log_fails : (pods : List Pod) (env : Env) (t : Trace) → (log_of_pods pods env t).0 ≡ ok tt → ⊥
unfolding log_of_pods
log_fails [] env t h = not-err-ok h
log_fails (pod ∷ pods) env t h =
    let (r, got, rest) = bind-ok (attempt (get_not_complete_cn_log pod.name) env t) _ env tt h in
    not-err-ok (ap (λ x. x.0) (sym rest) ∙ h)

listed_fails :
    (r : Result (List Pod)) (env : Env) (t : Trace)
    → (continue
        (settle (r, t))
        (λ r'. elim r' as (λ _. M (Unit {0})) [
          | ok pods ↦ log_of_pods pods
          | err e ↦ fail (other "get pod from job")
          | diverged ↦ lift diverged
        ])
        env).0
      ≡ ok tt
    → ⊥
listed_fails (ok pods) env t h = log_fails pods env t h
listed_fails (err e) env t h = not-err-ok h
listed_fails diverged env t h = not-diverged-ok h

incomplete_fails :
    (job_name : Str) (env : Env) (t : Trace) → (fail_incomplete job_name env t).0 ≡ ok tt → ⊥
unfolding fail_incomplete list_pod
incomplete_fails job_name env t h = listed_fails (env.list_pods_reply t _) env _ h

-- After an error of GetJob, the wait ends well only where the job is gone.
error-absent :
    (job_name : Str) (e : Err) (env : Env) (t : Trace)
    → (after_job_error job_name e env t).0 ≡ ok tt
    → (e ≡ not_found) × ((after_job_error job_name e env t).1 ≡ t)
unfolding after_job_error
error-absent job_name not_found env t h = (refl, refl)
error-absent job_name e env t h = elim (Bool-cases (context_ended (env.context_error t))) [
  | inl ended ↦ absurd (incomplete_fails job_name env t (rw ended at h))
  | inr going ↦ absurd (not-err-ok (rw going at h))
]

-- The last answer about the job: it is gone, or it is complete. A complete job may be deleted after
-- that answer.
abbrev pub EndsComplete : Str → Str → Trace → Type 0
EndsComplete name namespace t =
    (before : Trace) × ((t ≡ got_job name namespace (err not_found) ∷ before)
      ⊎ ((job : Job) × (is_job_completed job ≡ true)
          × ((t ≡ got_job name namespace (ok job) ∷ before)
              ⊎ ((answer : Result (Unit {0})) × (t
                    ≡ deleted_job name namespace answer
                      ∷ got_job name namespace (ok job)
                      ∷ before)))))

abbrev after_job : Str → M (Unit {0}) → Result Job → M (Unit {0})
after_job job_name rest r = elim r as (λ _. M (Unit {0})) [
  | err e ↦ after_job_error job_name e
  | ok job ↦ elim (is_job_completed job) as (λ _. M (Unit {0})) [
    | true ↦ finish_job job job_name
    | false ↦ do sleep; rest
  ]
  | diverged ↦ lift diverged
]

recycled :
    (r : Result (Unit {0})) (job : Job) (name namespace : Str) (env : Env) (before : Trace)
    → is_job_completed job ≡ true
    → let t = got_job name namespace (ok job) ∷ before in
      EndsComplete name namespace
        (continue (settle (r, deleted_job name namespace r ∷ t)) (λ _. pure (tt {0})) env).1
recycled (ok u) job name namespace env before done = (before, inr (job, done, inr (_, refl)))
recycled (err e) job name namespace env before done = (before, inr (job, done, inr (_, refl)))
recycled diverged job name namespace env before done = (before, inr (job, done, inr (_, refl)))

finish-EndsComplete :
    (job : Job) (name : Str) (env : Env) (before : Trace)
    → is_job_completed job ≡ true
    → EndsComplete name env.mount_namespace
        (finish_job job name env (got_job name env.mount_namespace (ok job) ∷ before)).1
unfolding finish_job delete_job
finish-EndsComplete job name env before done =
    elim (Bool-cases (
      is_job_should_be_recycled (env.now (got_job name env.mount_namespace (ok job) ∷ before))
        job)) [
          | inl recycle ↦ rw recycle (recycled _ job name env.mount_namespace env before done)
          | inr leave ↦ rw leave (before, inr (job, done, inl refl))
        ]

completed-EndsComplete :
    (b : Bool) (job : Job) (name : Str) (rest : M (Unit {0})) (env : Env) (before : Trace)
    → is_job_completed job ≡ b
    → let t = got_job name env.mount_namespace (ok job) ∷ before in
      let run =
        (elim b as (λ _. M (Unit {0})) [ true ↦ finish_job job name | false ↦ do sleep; rest ]) env
          t in
      run.0 ≡ ok tt
      → ((rest env (slept ∷ t)).0 ≡ ok tt
          → EndsComplete name env.mount_namespace (rest env (slept ∷ t)).1)
      → EndsComplete name env.mount_namespace run.1
completed-EndsComplete true job name rest env before done h later =
    finish-EndsComplete job name env before done
completed-EndsComplete false job name rest env before done h later = later h

answer-EndsComplete :
    (r : Result Job) (name : Str) (rest : M (Unit {0})) (env : Env) (before : Trace)
    → let t = got_job name env.mount_namespace r ∷ before in
      (after_job name rest r env t).0 ≡ ok tt
      → ((rest env (slept ∷ t)).0 ≡ ok tt
          → EndsComplete name env.mount_namespace (rest env (slept ∷ t)).1)
      → EndsComplete name env.mount_namespace (after_job name rest r env t).1
answer-EndsComplete (ok job) name rest env before h later =
    completed-EndsComplete (is_job_completed job) job name rest env before refl h later
answer-EndsComplete (err e) name rest env before h later =
    let (gone, same) = error-absent name e env _ h in (before, inl (same ∙ rw gone refl))
answer-EndsComplete diverged name rest env before h later = absurd (not-diverged-ok h)

first_round :
    (fuel : ℕ) (name : Str) (env : Env) (t : Trace)
    → let r = env.get_job_reply t name env.mount_namespace in
      wait_until_job_completed (suc fuel) name env t
      ≡ after_job name
          (wait_until_job_completed fuel name)
          r
          env
          (got_job name env.mount_namespace r ∷ t)
unfolding wait_until_job_completed get_job
first_round fuel name env t =
    attempt-known (env.get_job_reply t name env.mount_namespace) _
      (after_job name (wait_until_job_completed fuel name)) env refl

no_rounds :
    (name : Str) (env : Env) (t : Trace) → (wait_until_job_completed 0 name env t).0 ≡ ok tt → ⊥
unfolding wait_until_job_completed
no_rounds name env t h = not-diverged-ok h

-- A wait for a job that ends well ends with the answer that the job is complete, or that it is gone.
pub wait_until_job_completed-EndsComplete :
    (fuel : ℕ) (name : Str) (env : Env) (t : Trace)
    → (wait_until_job_completed fuel name env t).0 ≡ ok tt
    → EndsComplete name env.mount_namespace (wait_until_job_completed fuel name env t).1
wait_until_job_completed-EndsComplete zero name env t h = absurd (no_rounds name env t h)
wait_until_job_completed-EndsComplete (suc fuel) name env t h = rw (first_round fuel name env t) (
    answer-EndsComplete (env.get_job_reply t name env.mount_namespace) name
      (wait_until_job_completed fuel name) env t
      (ap (λ x. x.0) (sym (first_round fuel name env t)) ∙ h)
      (wait_until_job_completed-EndsComplete fuel name env _))
