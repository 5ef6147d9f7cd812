-- ===== src/Util/Pods/Laws.antt =====
-- pkg/util/pod.go: what the metadata patches hold, and what waiting for a mount point shows.
use mathlib.Core.List.{append_assoc}
use mathlib.Core.List.{append_assoc}
use juicedata_juicefs_csi_dr.Prelude.{
  ℕ, zero, suc, ◌≡◌, refl, ap, sym, ◌∙◌, ◌⊎◌, inl, inr, Bool, false, not, List, [], ◌∷◌, ◌++◌, Str,
  str_eq, keep, any, length, get_elem?-length-append, drop-suc-length-append, take-length-append,
  length-snoc, contains_string, Bool-cases, ==_iff, ◌==◌, arith, map, length-keep,
}
use juicedata_juicefs_csi_dr.Kube.{
  annotations_of, Pod, Container, Env, Trace, Result, ok, err, diverged, replace_finalizers,
  patch_pod, FileInfo, statted, slept, stored_minor, stat, M, attempt-known,
}
use juicedata_juicefs_csi_dr.Util.Names.{dev_minor}
use juicedata_juicefs_csi_dr.Util.Pods.{
  remove_loop, remove_finalizer, delete_resource_of_pod, without_resources, is_pod_has_resource,
  has_requests, get_all_ref_keys, get_ref, is_ref, wait_until_mount_ready, wait_round, ends_wait,
}

abbrev pub differs_from : Str → Str → Bool
differs_from finalizer x = not (str_eq x finalizer)

-- `pre` has been looked at, `xs` has not.
remove_loop_lem :
    (finalizer : Str) (pre xs : List Str)
    → remove_loop (length xs) finalizer (length pre) (pre ++ xs)
      ≡ pre ++ keep (differs_from finalizer) xs
unfolding remove_loop keep
remove_loop_lem finalizer pre [] = refl
remove_loop_lem finalizer pre (x ∷ xs) = elim (Bool-cases (str_eq x finalizer)) [
  | inl hit ↦
      rw (get_elem?-length-append pre x xs, remove_loop, hit)
        (rw (take-length-append pre (x ∷ xs), drop-suc-length-append pre x xs)
          (remove_loop_lem finalizer pre xs))
  | inr miss ↦
      rw (get_elem?-length-append pre x xs, remove_loop, miss)
        (simp (length-snoc, append_assoc) at (remove_loop_lem finalizer (pre ++ x ∷ []) xs))
]

-- The patch keeps every other finalizer, in order, and drops all that are equal to `finalizer`.
pub remove_finalizer-keep :
    (pod : Pod) (finalizer : Str)
    → remove_finalizer pod finalizer
      ≡ patch_pod pod (replace_finalizers (keep (differs_from finalizer) pod.finalizers))
unfolding remove_finalizer
remove_finalizer-keep pod finalizer = rw (remove_loop_lem finalizer [] pod.finalizers)

pub not-contains-keep :
    (finalizer : Str) (xs : List Str)
    → contains_string (keep (differs_from finalizer) xs) finalizer ≡ false
unfolding contains_string keep
not-contains-keep finalizer [] = refl
not-contains-keep finalizer (x ∷ xs) = ground (arith, not-contains-keep finalizer xs)

no_requests : (cns : List Container) → any has_requests (map without_resources cns) ≡ false
unfolding any without_resources has_requests
no_requests [] = refl
no_requests (cn ∷ cns) = ground (arith, no_requests cns)

pub is_pod_has_resource-delete :
    (pod : Pod) → is_pod_has_resource (delete_resource_of_pod pod) ≡ false
unfolding is_pod_has_resource delete_resource_of_pod
is_pod_has_resource-delete pod = no_requests pod.containers

-- The number of references is the size of the map that GetAllRefKeys builds.
pub length-get_all_ref_keys :
    (hash : Str → Str) (pod : Pod) → length (get_all_ref_keys hash pod) ≡ get_ref hash pod
unfolding get_all_ref_keys get_ref
length-get_all_ref_keys hash pod = length-keep (is_ref hash) (annotations_of pod)

-- The history of a wait that ended well: the last `stat` found the root inode of a mount.
abbrev pub EndsReady : Str → Trace → Type 0
EndsReady path t =
    (info : FileInfo) × (before : Trace) × (t
      ≡ stored_minor path (dev_minor info.dev) ∷ statted path (ok info) ∷ before)
    × (info.inode ≡ 1)

-- The same, with all that the wait has seen since the history `start`.
abbrev pub ReadyAfter : Str → Trace → Trace → Type 0
ReadyAfter path start t =
    (rounds : Trace) × (info : FileInfo) × (t
      ≡ stored_minor path (dev_minor info.dev) ∷ statted path (ok info) ∷ (rounds ++ start))
    × (info.inode ≡ 1)

-- A round of the wait ends it well, fails, or leads to the rounds after it.
round_cases :
    (path : Str) (r : Result FileInfo) (rest : M (Unit {0})) (env : Env) (t : Trace)
    → (wait_round path r rest env (statted path r ∷ t)).0 ≡ ok tt
    → ReadyAfter path t (wait_round path r rest env (statted path r ∷ t)).1
      ⊎ (wait_round path r rest env (statted path r ∷ t) ≡ rest env (slept ∷ statted path r ∷ t))
unfolding wait_round
round_cases path (ok info) rest env t h = elim (Bool-cases (info.inode == 1)) [
  | inl root ↦ inl ([], info, rw (root, wait_round), (==_iff info.inode 1).0 root)
  | inr other' ↦ inr (rw (other', wait_round))
]
round_cases path (err e) rest env t h = elim (Bool-cases (ends_wait e)) [
  | inl over ↦ absurd (ground arith)
  | inr more ↦ inr (rw (more, wait_round))
]
round_cases path diverged rest env t h = absurd (ground arith)

-- The first round, with the answer of `stat` taken out.
first_round :
    (fuel : ℕ) (path : Str) (env : Env) (t : Trace)
    → wait_until_mount_ready (suc fuel) path env t
      ≡ wait_round path
          (env.stat_reply t path)
          (wait_until_mount_ready fuel path)
          env
          (statted path (env.stat_reply t path) ∷ t)
unfolding wait_until_mount_ready stat wait_round
first_round fuel path env t = attempt-known (env.stat_reply t path) _ _ env refl

longer :
    (path : Str) (seen start t : Trace)
    → ReadyAfter path (seen ++ start) t
    → ReadyAfter path start t
longer path seen start t (rounds, info, whole, root) = (
  rounds ++ seen,
  info,
  whole
      ∙ ap (λ u. stored_minor path (dev_minor info.dev) ∷ statted path (ok info) ∷ u)
          (sym (append_assoc rounds seen start)),
  root,
)

pub wait-ReadyAfter :
    (fuel : ℕ) (path : Str) (env : Env) (t : Trace)
    → (wait_until_mount_ready fuel path env t).0 ≡ ok tt
    → ReadyAfter path t (wait_until_mount_ready fuel path env t).1
wait-ReadyAfter zero path env t h = unfold wait_until_mount_ready in absurd (ground arith)
wait-ReadyAfter (suc fuel) path env t h =
    rw (first_round fuel path env t)
      (elim (round_cases path r _ env t (rw (first_round fuel path env t) at h)) [
        | inl ends ↦ ends
        | inr more ↦ rw more (
            longer path (slept ∷ statted path r ∷ []) t _ (
              wait-ReadyAfter fuel path env _
                (ap (λ s. s.0) (sym more) ∙ (rw (first_round fuel path env t) at h))))
      ])
  where
    r : Result FileInfo
    r = env.stat_reply t path

pub wait-EndsReady :
    (fuel : ℕ) (path : Str) (env : Env) (t : Trace)
    → (wait_until_mount_ready fuel path env t).0 ≡ ok tt
    → EndsReady path (wait_until_mount_ready fuel path env t).1
wait-EndsReady fuel path env t h =
    let (rounds, info, whole, root) = wait-ReadyAfter fuel path env t h in
    (info, rounds ++ t, whole, root)
