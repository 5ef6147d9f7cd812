-- ===== src/Controller/Discarded.antt =====
-- The deletions of the reconciler of pkg/controller/job_controller.go.
use juicedata_juicefs_csi_dr.Prelude.{
  ℕ, suc, ◌≡◌, refl, ◌⊎◌, inl, inr, Bool, true, false, ◌||◌, List, [], ◌∷◌, Str, is_empty,
  if◌then◌else◌,
}
use juicedata_juicefs_csi_dr.Kube.{
  Pod, Job, Env, Trace, got_job, listed_pods, deleted_job, Err, Result, ok, err, diverged, M, ◌>>=◌,
  continue, pure, fail, lift, ask, get_job, list_pod, delete_job, is_not_found, attempt-known,
}
use juicedata_juicefs_csi_dr.Util.Jobs.{is_job_should_be_recycled}
use juicedata_juicefs_csi_dr.Controller.Recycling.{
  csi_query, list_csi_pods, recycle_if, recycle, reconcile_job,
}

-- The deletions of jobs so far.
unfoldable pub job_deletions : Trace → ℕ
job_deletions [] = 0
job_deletions (deleted_job name namespace r ∷ t) = suc (job_deletions t)
job_deletions (_ ∷ t) = job_deletions t

-- What was answered since the job was read.
abbrev pub Since : Env → Job → Trace → Trace → Type 0
Since env job t before =
    (before ≡ t)
    ⊎ ((pods : List Pod) × (before
          ≡ listed_pods (csi_query env.mount_namespace job.node_name) (ok pods) ∷ t))

-- The job was deleted, right after it was read or after one answer on the pods of the driver on its
-- node: it was over by then, or there was no such pod.
pub record Discarded (env : Env) (job : Job) (t t' : Trace) : Type 0 where
  pub alive : job.deleting ≡ false
  pub before : Trace
  pub answer : Result (Unit {0})
  pub history : t' ≡ deleted_job job.name job.namespace answer ∷ before
  pub since : Since env job t before
  pub reason :
      (is_job_should_be_recycled (env.now before) job ≡ true)
      ⊎ (before ≡ listed_pods (csi_query env.mount_namespace job.node_name) (ok []) ∷ t)

-- No job was deleted, or the one of the answer was.
abbrev pub MayDiscard : Env → Str → Str → Trace → Trace → Type 0
MayDiscard env name namespace t t' =
    (job_deletions t' ≡ job_deletions t)
    ⊎ ((job : Job) × Discarded env job (got_job name namespace (ok job) ∷ t) t')

over-MayDiscard :
    (over : Bool) (job : Job) (name namespace : Str) (env : Env) (t before : Trace)
    → job.deleting ≡ false
    → is_job_should_be_recycled (env.now before) job ≡ over
    → job_deletions before ≡ job_deletions t
    → Since env job (got_job name namespace (ok job) ∷ t) before
    → MayDiscard env name namespace t (recycle_if over job env before).1
unfolding recycle_if delete_job
over-MayDiscard true job name namespace env t before alive over unchanged since = inr (
  job,
  record {
    alive = alive;
    before = before;
    answer = _;
    history = refl;
    since = since;
    reason = inl over;
  },
)
over-MayDiscard false job name namespace env t before alive over unchanged since = inl unchanged

listed_job-MayDiscard :
    (r : Result (List Pod)) (job : Job) (name namespace : Str) (env : Env) (t : Trace)
    → job.deleting ≡ false
    → MayDiscard env name namespace t
        (continue
          (
            r,
            listed_pods (csi_query env.mount_namespace job.node_name) r
                ∷ got_job name namespace (ok job)
                ∷ t,
          )
          (λ csi_pods. do
            after ← ask (λ env t. env.now t)
            recycle_if (is_empty csi_pods || is_job_should_be_recycled after job) job)
          env).1
unfolding job_deletions recycle_if delete_job
listed_job-MayDiscard (ok []) job name namespace env t alive = inr (
  job,
  record {
    alive = alive;
    before = _;
    answer = _;
    history = refl;
    since = inr ([], refl);
    reason = inr refl;
  },
)
listed_job-MayDiscard (ok (p ∷ ps)) job name namespace env t alive =
    over-MayDiscard _ job name namespace env t _ alive refl refl (inr (p ∷ ps, refl))
listed_job-MayDiscard (err e) job name namespace env t alive = inl refl
listed_job-MayDiscard diverged job name namespace env t alive = inl refl

recycle-MayDiscard :
    (nodeless : Bool) (job : Job) (name namespace : Str) (env : Env) (t : Trace)
    → job.deleting ≡ false
    → is_empty job.node_name ≡ nodeless
    → MayDiscard env name namespace t (recycle job env (got_job name namespace (ok job) ∷ t)).1
unfolding recycle list_csi_pods list_pod job_deletions
recycle-MayDiscard true job name namespace env t alive h =
    rw h (over-MayDiscard _ job name namespace env t _ alive refl refl (inl refl))
recycle-MayDiscard false job name namespace env t alive h =
    rw h (listed_job-MayDiscard _ job name namespace env t alive)

-- What is done with the answer.
abbrev on_job : Result Job → M (Unit {0})
on_job r = elim r [
  | ok job ↦ if job.deleting then pure tt else recycle job
  | err e ↦ if is_not_found e then pure tt else fail e
  | diverged ↦ lift diverged
]

found_job-MayDiscard :
    (dying : Bool) (job : Job) (name namespace : Str) (env : Env) (t : Trace)
    → job.deleting ≡ dying
    → MayDiscard env name namespace t
        ((if dying then pure (tt {0}) else recycle job) env (got_job name namespace (ok job) ∷ t)).1
unfolding job_deletions
found_job-MayDiscard true job name namespace env t d = inl refl
found_job-MayDiscard false job name namespace env t d =
    recycle-MayDiscard _ job name namespace env t d refl

missing_job-MayDiscard :
    (absent : Bool) (e : Err) (name namespace : Str) (env : Env) (t : Trace)
    → MayDiscard env name namespace t
        ((if absent then pure (tt {0}) else fail {A = Unit {0}} e) env
          (got_job name namespace (err e) ∷ t)).1
unfolding job_deletions
missing_job-MayDiscard true e name namespace env t = inl refl
missing_job-MayDiscard false e name namespace env t = inl refl

job_answer-MayDiscard :
    (r : Result Job) (name namespace : Str) (env : Env) (t : Trace)
    → MayDiscard env name namespace t (on_job r env (got_job name namespace r ∷ t)).1
unfolding job_deletions
job_answer-MayDiscard (ok job) name namespace env t =
    found_job-MayDiscard job.deleting job name namespace env t refl
job_answer-MayDiscard (err e) name namespace env t =
    missing_job-MayDiscard (is_not_found e) e name namespace env t
job_answer-MayDiscard diverged name namespace env t = inl refl

-- The job controller deletes nothing, or it deletes, once and last, the job that was answered,
-- which is not being deleted; in between it makes no call, or asks for the pods of the driver on the
-- job's node. The job is over by the time of the deletion, or the answer was that there is no pod.
pub reconcile_job-MayDiscard :
    (name namespace : Str) (env : Env) (t : Trace)
    → MayDiscard env name namespace t (reconcile_job name namespace env t).1
unfolding reconcile_job get_job
reconcile_job-MayDiscard name namespace env t =
    rw
      (attempt-known (env.get_job_reply t name namespace)
        (got_job name namespace (env.get_job_reply t name namespace) ∷ t) on_job env refl)
      (job_answer-MayDiscard (env.get_job_reply t name namespace) name namespace env t)
