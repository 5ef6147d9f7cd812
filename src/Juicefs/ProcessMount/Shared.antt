-- ===== src/Juicefs/ProcessMount/Shared.antt =====
-- What JUmount of pkg/juicefs/mount/process_mount.go unmounts.
use mathlib.Core.List.{append_assoc}
use juicedata_juicefs_csi_dr.Prelude.{
  ℕ, zero, suc, ◌≡◌, refl, ap, Bool, true, not, Option, none, some, List, [], ◌∷◌, Str, lit, str_eq,
  false, trim_suffix, path_dir, path_base, path_join, ◌++◌, subst, sym, ◌∙◌, Bool-cases, inl, inr,
}
use juicedata_juicefs_csi_dr.Kube.{
  Err, corrupted, Env, Trace, Result, ok, err, diverged, M, ◌>>=◌, ◌>>◌, continue, unmounted,
  unmount, Keeps, pure, fail, other, path_exists, is_not_mount_point, eval_symlinks, read_whole,
  bind-Keeps, attempt-Keeps, pure-Keeps, fail-Keeps, if-Keeps, unless-Keeps, answer-Keeps, lift,
  resolved_links, read_file, bind-ok, not-err-ok, Event, checked_path, checked_not_mount_point,
  ok-injective,
}
use juicedata_juicefs_csi_dr.Util.MountTable.{Mount, parse_mounts, search_mount_points}
use juicedata_juicefs_csi_dr.Juicefs.ProcessMount.{
  attached, attached_at, read_again, consistent_read, real_path, get_mount_device_refs,
  unmount_last, j_umount,
}

-- The paths that were unmounted, the last one first.
unfoldable pub unmounts : Trace → List Str
unmounts [] = []
unmounts (unmounted path r ∷ t) = path ∷ unmounts t
unmounts (_ ∷ t) = unmounts t

abbrev pub mount_info_path : Str
mount_info_path = lit "/proc/self/mountinfo"

-- The last answer resolves the target, or, where it is corrupted, the directory it stands in.
pub data Resolved (target path : Str) : Trace → Trace → Type 0 where
  intact : {t : Trace} → Resolved target path t (resolved_links target (ok path) ∷ t)
  corrupt :
      {t : Trace} (parent : Str)
      → path ≡ path_join (parent ∷ path_base (trim_suffix target (lit "/")) ∷ [])
      → Resolved target path t
          (resolved_links (path_dir (trim_suffix target (lit "/"))) (ok parent) ∷ t)

-- Since the history `t`, the target was resolved, then the table of mounts was read, and this table
-- shows that the paths are the other mounts of the target's device.
pub record Listed (target : Str) (refs : List Str) (t t' : Trace) : Type 0 where
  pub path : Str
  pub after_links : Trace
  pub resolved : Resolved target path t after_links
  pub content : Str
  pub reads : Trace
  pub read : t' ≡ read_file mount_info_path (ok content) ∷ (reads ++ after_links)
  pub mounts : List Mount
  pub parsed : parse_mounts content ≡ ok mounts
  pub found : search_mount_points path mounts ≡ ok refs

-- Nothing was unmounted, or the target, or right after it the one other mount of its device, which
-- the table shows just before.
pub data Released (target : Str) (t t' : Trace) : Type 0 where
  untouched : unmounts t' ≡ unmounts t → Released target t t'
  target_only : unmounts t' ≡ target ∷ unmounts t → Released target t t'
  with_last :
      (ref : Str) (answer : Result (Unit {0})) (checks before : Trace)
      → Listed target (ref ∷ []) (checks ++ t) before
      → unmounts before ≡ unmounts t
      → t' ≡ unmounted ref answer ∷ unmounted target (ok tt) ∷ before
      → Released target t t'

-- Since `t₀`, nothing was unmounted.
abbrev Unmounted : Trace → Trace → Type 0
Unmounted t₀ t = (unmounts t ≡ unmounts t₀) × ((checks : Trace) × (t ≡ checks ++ t₀))

noted :
    (e : Event) (t₀ t : Trace)
    → unmounts (e ∷ t) ≡ unmounts t
    → Unmounted t₀ t
    → Unmounted t₀ (e ∷ t)
noted e t₀ t same (h, (checks, whole)) = (same ∙ h, (e ∷ checks, ap (◌∷◌ e) whole))

module _ {env : Env} {t₀ : Trace} where
  read-Keeps : (path : Str) → Keeps env (Unmounted t₀) (read_whole path)
  unfolding read_whole unmounts
  read-Keeps path = record {
    kept = λ t h. noted (read_file path (env.read_file_reply t path)) t₀ t refl h;
  }

  links-Keeps : (path : Str) → Keeps env (Unmounted t₀) (eval_symlinks path)
  unfolding eval_symlinks unmounts
  links-Keeps path = record {
    kept = λ t h. noted (resolved_links path (env.eval_symlinks_reply t path)) t₀ t refl h;
  }

  exists-Keeps : (path : Str) → Keeps env (Unmounted t₀) (path_exists path)
  unfolding path_exists unmounts
  exists-Keeps path = record {
    kept = λ t h. noted (checked_path path (env.path_exists_reply t path)) t₀ t refl h;
  }

  not_mount_point-Keeps : (path : Str) → Keeps env (Unmounted t₀) (is_not_mount_point path)
  unfolding is_not_mount_point unmounts
  not_mount_point-Keeps path = record {
    kept = λ t h.
        noted (checked_not_mount_point path (env.is_not_mount_point_reply t path)) t₀ t refl h;
  }

  lift-Keeps {ℓ} : {A : Type ℓ} (r : Result A) → Keeps env (Unmounted t₀) (lift r)
  lift-Keeps r = record { kept = λ t h. h }

-- Where the last answer is from, with what was read before.
WasRead : Str → Trace → Trace → Type 0
WasRead content t t' =
    (reads : Trace) × (t' ≡ read_file mount_info_path (ok content) ∷ (reads ++ t))

earlier :
    (content : Str) (e : Event) (t t' : Trace) → WasRead content (e ∷ t) t' → WasRead content t t'
unfolding WasRead
earlier content e t t' (reads, whole) = (
  reads ++ e ∷ [],
  whole
      ∙ ap (λ u. read_file mount_info_path (ok content) ∷ u) (sym (append_assoc reads (e ∷ []) t)),
)

read_again-WasRead :
    (attempts : ℕ) (old content : Str) (env : Env) (t : Trace)
    → (read_again attempts mount_info_path old env t).0 ≡ ok content
    → WasRead content t (read_again attempts mount_info_path old env t).1
unfolding read_again read_whole WasRead
read_again-WasRead zero old content env t h = absurd (not-err-ok h)
read_again-WasRead (suc attempts) old content env t h =
    let (new, e, h₁) = bind-ok (read_whole mount_info_path env t) _ env content h in
    let k = ap (λ x. x.0) (sym h₁) ∙ h in
    subst (λ x. WasRead content t x.1) (sym h₁)
      (elim (Bool-cases (str_eq old new)) [
        | inl same ↦
            let last : ok new ≡ ok content = rw same at k in
            rw same ([], ap (λ r. read_file mount_info_path r ∷ t) (e ∙ last))
        | inr differs ↦ rw differs (
            earlier content _ t _ (read_again-WasRead attempts new content env _ (rw differs at k)))
      ])

consistent_read-WasRead :
    (content : Str) (env : Env) (t : Trace)
    → (consistent_read mount_info_path 3 env t).0 ≡ ok content
    → WasRead content t (consistent_read mount_info_path 3 env t).1
unfolding consistent_read read_whole
consistent_read-WasRead content env t h =
    let (old, e, h₁) = bind-ok (read_whole mount_info_path env t) _ env content h in
    subst (λ x. WasRead content t x.1) (sym h₁)
      (earlier content _ t _ (read_again-WasRead 3 old content env _ (ap (λ x. x.0) (sym h₁) ∙ h)))

real_path-Resolved :
    (target : Str) (is_corrupted : Bool) (path : Str) (env : Env) (t : Trace)
    → (real_path target is_corrupted env t).0 ≡ ok path
    → Resolved target path t (real_path target is_corrupted env t).1
unfolding real_path eval_symlinks
real_path-Resolved target false path env t h =
    subst (λ r. Resolved target path t (resolved_links target r ∷ t)) (sym h) intact
real_path-Resolved target true path env t h =
    let directory = path_dir (trim_suffix target (lit "/")) in
    let (parent, e, h₁) = bind-ok (eval_symlinks directory env t) _ env path h in
    subst (λ x. Resolved target path t x.1) (sym h₁)
      (subst (λ r. Resolved target path t (resolved_links directory r ∷ t)) (sym e)
        (corrupt parent (sym (ok-injective (ap (λ x. x.0) (sym h₁) ∙ h)))))

refs-Listed :
    (target : Str) (is_corrupted : Bool) (refs : List Str) (env : Env) (t : Trace)
    → (get_mount_device_refs target is_corrupted env t).0 ≡ ok refs
    → Listed target refs t (get_mount_device_refs target is_corrupted env t).1
unfolding get_mount_device_refs WasRead
refs-Listed target is_corrupted refs env t h =
    let (path, e₁, h₁) = bind-ok (real_path target is_corrupted env t) _ env refs h in
    let k₁ = ap (λ x. x.0) (sym h₁) ∙ h in
    let (content, e₂, h₂) =
      bind-ok (consistent_read mount_info_path 3 env (real_path target is_corrupted env t).1) _ env
        refs k₁ in
    let k₂ = ap (λ x. x.0) (sym h₂) ∙ k₁ in
    let (mounts, parsed, h₃) = bind-ok (parse_mounts content, _) _ env refs k₂ in
    let (reads, read) = consistent_read-WasRead content env _ e₂ in
    record {
      path = path;
      after_links = (real_path target is_corrupted env t).1;
      resolved = real_path-Resolved target is_corrupted path env t e₁;
      content = content;
      reads = reads;
      read = ap (λ x. x.1) h₁ ∙ ap (λ x. x.1) h₂ ∙ ap (λ x. x.1) h₃ ∙ read;
      mounts = mounts;
      parsed = parsed;
      found = ap (λ x. x.0) (sym h₃) ∙ k₂;
    }

module _ {env : Env} {t₀ : Trace} where
  read_again-Keeps :
      (attempts : ℕ) (filename old : Str)
      → Keeps env (Unmounted t₀) (read_again attempts filename old)
  unfolding read_again read_whole
  read_again-Keeps zero filename old = fail-Keeps _
  read_again-Keeps (suc attempts) filename old = bind-Keeps (read-Keeps filename) (λ new.
      if-Keeps (str_eq old new) (λ e. pure-Keeps new) (λ e. read_again-Keeps attempts filename new))

  real_path-Keeps :
      (pathname : Str) (is_corrupted : Bool)
      → Keeps env (Unmounted t₀) (real_path pathname is_corrupted)
  unfolding real_path
  real_path-Keeps pathname is_corrupted =
      if-Keeps (not is_corrupted) (λ e. links-Keeps pathname)
        (λ e. bind-Keeps (links-Keeps _) (λ parent. pure-Keeps _))

  refs-Keeps :
      (pathname : Str) (is_corrupted : Bool)
      → Keeps env (Unmounted t₀) (get_mount_device_refs pathname is_corrupted)
  unfolding get_mount_device_refs consistent_read
  refs-Keeps pathname is_corrupted = bind-Keeps (real_path-Keeps pathname is_corrupted) (λ path.
      bind-Keeps (bind-Keeps (read-Keeps _) (λ old. read_again-Keeps 3 _ old)) (λ content.
        bind-Keeps (lift-Keeps (parse_mounts content))
          (λ mounts. lift-Keeps (search_mount_points path mounts))))

  attached_at-Keeps :
      (target : Str) (exists : Bool) → Keeps env (Unmounted t₀) (attached_at target exists)
  attached_at-Keeps target exists =
      unless-Keeps (not exists) none
        (λ _. bind-Keeps (not_mount_point-Keeps target) (λ not_mounted. pure-Keeps _))

  failed-Keeps :
      (e : Err)
      → Keeps env (Unmounted t₀) {A = Option Bool} (elim e as (λ e'. M (Option Bool)) [
        | corrupted ↦ pure (some true)
        | e' ↦ fail (other "check path failed")
      ])
  failed-Keeps corrupted = pure-Keeps _
  failed-Keeps _ = fail-Keeps _

  attached-Keeps : (target : Str) → Keeps env (Unmounted t₀) (attached target)
  unfolding attached
  attached-Keeps target =
      bind-Keeps (attempt-Keeps (exists-Keeps target))
        (λ r. answer-Keeps r (λ exists. attached_at-Keeps target exists) (λ e. failed-Keeps e))

last-Released :
    (env : Env) (target : Str) (refs : List Str) (t₀ checks before : Trace)
    → Listed target refs (checks ++ t₀) before
    → unmounts before ≡ unmounts t₀
    → Released target t₀ (unmount_last refs env (unmounted target (ok tt) ∷ before)).1
unfolding unmount_last unmount unmounts
last-Released env target [] t₀ checks before l h = target_only (ap (◌∷◌ target) h)
last-Released env target (ref ∷ []) t₀ checks before l h = with_last ref _ checks before l h refl
last-Released env target (ref ∷ ref' ∷ refs) t₀ checks before l h = target_only (ap (◌∷◌ target) h)

after-Released :
    (env : Env) (target : Str) (refs : List Str) (r : Result (Unit {0})) (t₀ checks before : Trace)
    → Listed target refs (checks ++ t₀) before
    → unmounts before ≡ unmounts t₀
    → Released target t₀ (continue (r, unmounted target r ∷ before) (λ u. unmount_last refs) env).1
unfolding unmounts
after-Released env target refs (ok u) t₀ checks before l h =
    last-Released env target refs t₀ checks before l h
after-Released env target refs (err e) t₀ checks before l h = target_only (ap (◌∷◌ target) h)
after-Released env target refs diverged t₀ checks before l h = target_only (ap (◌∷◌ target) h)

refs-Released :
    (env : Env) (target : Str) (r : Result (List Str) × Trace) (t₀ checks : Trace)
    → ((refs : List Str) → r.0 ≡ ok refs → Listed target refs (checks ++ t₀) r.1)
    → unmounts r.1 ≡ unmounts t₀
    → Released target t₀ (continue r (λ refs. unmount target >> unmount_last refs) env).1
unfolding unmount
refs-Released env target (ok refs, before) t₀ checks l h =
    after-Released env target refs _ t₀ checks before (l refs refl) h
refs-Released env target (err e, before) t₀ checks l h = untouched h
refs-Released env target (diverged, before) t₀ checks l h = untouched h

found-Released :
    (env : Env) (target : Str) (r : Result (Option Bool) × Trace) (t₀ : Trace)
    → Unmounted t₀ r.1
    → Released target t₀
        (continue r
          (λ found. elim found as (λ f. M (Unit {0})) [
            | none ↦ pure tt
            | some is_corrupted ↦ get_mount_device_refs target is_corrupted >>= λ refs.
                unmount target >> unmount_last refs
          ])
          env).1
found-Released env target (ok none, t) t₀ (h, rest) = untouched h
found-Released env target (ok (some is_corrupted), t) t₀ (h, (checks, e)) =
    refs-Released env target (get_mount_device_refs target is_corrupted env t) t₀ checks
      (λ refs got.
        subst (λ u. Listed target refs u (get_mount_device_refs target is_corrupted env t).1) e
          (refs-Listed target is_corrupted refs env t got))
      ((refs-Keeps target is_corrupted).kept t (h, (checks, e))).0
found-Released env target (err e, t) t₀ (h, rest) = untouched h
found-Released env target (diverged, t) t₀ (h, rest) = untouched h

-- JUmount unmounts nothing, or the target alone, or after it one other mount: where, since the
-- checks of the target, the target was resolved, and the table of mounts that was read last shows
-- that mount to be the only other one of the device of the resolved path. This holds whatever the
-- answers to its calls.
pub j_umount-Released :
    (target : Str) (env : Env) (t : Trace) → Released target t (j_umount target env t).1
unfolding j_umount
j_umount-Released target env t =
    found-Released env target (attached target env t) t
      ((attached-Keeps target).kept t (refl, ([], refl)))
