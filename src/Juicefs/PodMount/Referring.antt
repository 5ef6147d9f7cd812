-- ===== src/Juicefs/PodMount/Referring.antt =====
-- The pods of createOrAddRef of pkg/juicefs/mount/pod_mount.go refer to the target they are made for.
use juicedata_juicefs_csi_dr.Prelude.{
  ℕ, zero, suc, refl, true, false, not, Bool, Option, some, none, [], ◌∷◌, Str, lookup-insert,
  str_eq, str_eq_refl, ◌++◌,
}
use juicedata_juicefs_csi_dr.Kube.{
  Pod, annotations_of, Env, Trace, Err, Result, M, ◌>>◌, attempt, lift, ask, is_not_found,
  is_timeout, get_pod, list_node, sleep, Keeps, bind-Keeps, attempt-Keeps, pure-Keeps, fail-Keeps,
  ask-Keeps, if-Keeps, unless-Keeps, answer-Keeps, with_lock-Keeps, Yields, pure-Yields,
  bind-Yields, if-Yields, answer-Yields, bind_yield-Keeps, hostname_label,
}
use juicedata_juicefs_csi_dr.Util.Names.{get_reference_key}
use juicedata_juicefs_csi_dr.Juicefs.Settings.{JfsSetting, AppInfo, Builder, gen_hash_of_setting}
use juicedata_juicefs_csi_dr.Juicefs.PodMount.Refs.{add_ref_of_mount, secret_name_of}
use juicedata_juicefs_csi_dr.Juicefs.PodMount.Jobs.{create_or_update_secret}
use juicedata_juicefs_csi_dr.Juicefs.PodMount.Mount.{
  name_suffix, is_single_node, copy_scheduling, select_node, new_pod_for, create_mount_pod,
  create_if_missing, create_or_add, create_or_add_ref,
}
use juicedata_juicefs_csi_dr.Juicefs.PodMount.Creations.{
  RefersTo, CreatesReferring, get_pod-Keeps, list_node-Keeps, sleep-Keeps, create_pod-Keeps,
  secret-Keeps, add_ref-Keeps,
}

new_pod_for-RefersTo :
    (b : Builder) (setting : JfsSetting) (pod_name key hash : Str)
    → RefersTo key setting.target_path (new_pod_for b setting pod_name key hash)
unfolding new_pod_for annotations_of
new_pod_for-RefersTo b setting pod_name key hash =
    rw
      (
        lookup-insert key key setting.target_path
            (annotations_of (b.new_mount_pod setting pod_name)),
        str_eq_refl key,
      )
      refl

module _ (key target : Str) {env : Env} where
  copy-Yields :
      (app : Option AppInfo) (pod : Pod)
      → RefersTo key target pod
      → Yields env (RefersTo key target) (copy_scheduling app pod)
  unfolding copy_scheduling annotations_of
  copy-Yields none pod q = pure-Yields pod q
  copy-Yields (some app) pod q = if-Yields (str_eq app.name []) (pure-Yields pod q) (
      bind-Yields (attempt (get_pod app.name app.namespace))
        (λ r. answer-Yields r (λ app_pod. pure-Yields _ q) (λ e. pure-Yields pod q)))

  select-Yields :
      (app : Option AppInfo) (pod : Pod)
      → RefersTo key target pod
      → Yields env (RefersTo key target) (select_node app pod)
  unfolding select_node annotations_of
  select-Yields app pod q = bind-Yields (ask (λ env t. env.enable_node_selector)) (λ enabled.
      if-Yields (not enabled) (pure-Yields pod q) (
        bind-Yields (attempt (list_node ((hostname_label, pod.node_name) ∷ []))) (λ nodes.
          if-Yields (is_single_node pod.node_name nodes) (copy-Yields app _ q)
            (pure-Yields pod q))))

  copy-Keeps :
      (app : Option AppInfo) (pod : Pod)
      → Keeps env (CreatesReferring key target) (copy_scheduling app pod)
  unfolding copy_scheduling
  copy-Keeps none pod = pure-Keeps pod
  copy-Keeps (some app) pod = unless-Keeps (str_eq app.name []) pod (λ _.
      bind-Keeps (attempt-Keeps (get_pod-Keeps key target app.name app.namespace))
        (λ r. answer-Keeps r (λ app_pod. pure-Keeps _) (λ e. pure-Keeps pod)))

  select-Keeps :
      (app : Option AppInfo) (pod : Pod)
      → Keeps env (CreatesReferring key target) (select_node app pod)
  unfolding select_node
  select-Keeps app pod = bind-Keeps (ask-Keeps (λ env t. env.enable_node_selector)) (λ enabled.
      unless-Keeps (not enabled) pod (λ _.
        bind-Keeps
          (attempt-Keeps (list_node-Keeps key target ((hostname_label, pod.node_name) ∷ [])))
          (λ nodes.
            if-Keeps (is_single_node pod.node_name nodes) (λ _. copy-Keeps app _)
              (λ _. pure-Keeps pod))))

module _ (b : Builder) (setting : JfsSetting) (app : Option AppInfo) (pod_name key hash : Str)
    {env : Env} where
  create_mount_pod-Keeps :
      Keeps env
        (CreatesReferring key setting.target_path)
        (create_mount_pod b setting app pod_name key hash)
  unfolding create_mount_pod
  create_mount_pod-Keeps =
      bind_yield-Keeps (select-Keeps key setting.target_path app _)
        (select-Yields key setting.target_path app _
          (new_pod_for-RefersTo b setting pod_name key hash))
        (λ new_pod q.
          bind-Keeps (secret-Keeps key setting.target_path (b.new_secret setting))
            (λ _. create_pod-Keeps key setting.target_path new_pod q))

  create_if_missing-Keeps :
      (e : Err)
      → Keeps env
          (CreatesReferring key setting.target_path)
          (create_if_missing b setting app pod_name key hash e)
  unfolding create_if_missing
  create_if_missing-Keeps e =
      if-Keeps (is_not_found e) (λ _. create_mount_pod-Keeps)
        (λ _. if-Keeps (is_timeout e) (λ _. fail-Keeps _) (λ _. fail-Keeps e))

  found-Keeps :
      (deleting : Bool) {m : M (Unit {0})}
      → Keeps env (CreatesReferring key setting.target_path) m
      → Keeps env (CreatesReferring key setting.target_path) (elim deleting [
        | true ↦ do sleep; m
        | false ↦ do
          create_or_update_secret (b.new_secret setting)
          add_ref_of_mount setting.target_path pod_name
      ])
  found-Keeps true h = bind-Keeps (sleep-Keeps key setting.target_path) (λ _. h)
  found-Keeps false h =
      bind-Keeps (secret-Keeps key setting.target_path (b.new_secret setting))
        (λ _. add_ref-Keeps key setting.target_path setting.target_path pod_name)

  create_or_add-Keeps :
      (fuel : ℕ)
      → Keeps env
          (CreatesReferring key setting.target_path)
          (create_or_add fuel b setting app pod_name key hash)
  unfolding create_or_add
  create_or_add-Keeps zero = record { kept = λ t h. h }
  create_or_add-Keeps (suc fuel) =
      bind-Keeps (ask-Keeps (λ env t. env.mount_namespace)) (λ namespace.
        bind-Keeps (attempt-Keeps (get_pod-Keeps key setting.target_path pod_name namespace)) (λ r.
          answer-Keeps r (λ old_pod. found-Keeps old_pod.deleting (create_or_add-Keeps fuel))
            create_if_missing-Keeps))

lifted-Keeps {ℓ} :
    {env : Env} {P : Trace → Type 0} {A : Type ℓ} (r : Result A) → Keeps env P (lift r)
lifted-Keeps r = record { kept = λ t h. h }

-- Every mount pod that createOrAddRef creates has the reference to the target among its
-- annotations, whatever the answers to its calls.
pub create_or_add_ref-CreatesReferring :
    (fuel : ℕ) (b : Builder) (pod_name : Str) (setting : JfsSetting) (app : Option AppInfo)
    (env : Env) (t : Trace)
    → let key = get_reference_key env.sha256_hex setting.target_path in
      CreatesReferring key setting.target_path t
      → CreatesReferring key setting.target_path
          (create_or_add_ref fuel b pod_name setting app env t).1
unfolding create_or_add_ref CreatesReferring
create_or_add_ref-CreatesReferring fuel b pod_name setting app env t h =
    (bind-Keeps (lifted-Keeps (gen_hash_of_setting b env.sha256_hex setting)) (λ hash.
        bind-Keeps (lifted-Keeps (name_suffix pod_name)) (λ suffix.
          bind-Keeps
            (with_lock-Keeps pod_name (λ t h. (tt, h)) (λ t h. (tt, h))
              (create_or_add-Keeps b
                (record setting {
                  mount_path = setting.mount_path ++ suffix;
                  secret_name = secret_name_of pod_name;
                })
                app pod_name (get_reference_key env.sha256_hex setting.target_path) hash fuel))
            (λ _. pure-Keeps _)))).kept
      t h
