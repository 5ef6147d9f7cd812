-- ===== src/Driver/Provision/Kept.antt =====
-- What Delete of pkg/driver/provisioner.go keeps for the other volumes of the storage class.
use juicedata_juicefs_csi_dr.Prelude.{
  ℕ, zero, suc, ◌≡◌, ◌≢◌, refl, ◌⊎◌, inl, inr, Bool, true, false, not, some, List, [], ◌∷◌, Str,
  lit, str_eq, is_empty, get_elem?, subst, GoMap, arith,
}
use juicedata_juicefs_csi_dr.Kube.{
  Pv, CsiSource, Env, Trace, Result, ok, err, diverged, M, listed_pvs, value_at, continue,
  list_persistent_volumes,
}
use juicedata_juicefs_csi_dr.Util.Sharing.{
  is_other, no_conflict, same_sub_path, check_others, check_for_sub_path,
}
use juicedata_juicefs_csi_dr.Driver.Provider.{Provider}
use juicedata_juicefs_csi_dr.Driver.Provision.{delete, delete_source}

-- A volume in the list is another live one of the class, with attributes that conflict.
pub record Conflicting (volume : Pv) (conflicts : GoMap Str → Bool) (pvs : List Pv) : Type 0 where
  pub position : ℕ
  pub pv : Pv
  pub csi : CsiSource
  pub found : get_elem? pvs position ≡ some pv
  pub other : is_other volume pv ≡ true
  pub source : pv.csi ≡ some csi
  pub conflict : conflicts csi.attributes ≡ true

at_pv :
    (volume : Pv) (conflicts : GoMap Str → Bool) (pv : Pv) (pvs : List Pv) (csi : CsiSource)
    → is_other volume pv ≡ true
    → pv.csi ≡ some csi
    → conflicts csi.attributes ≡ true
    → no_conflict volume conflicts (pv ∷ pvs) ≡ ok false
unfolding no_conflict
at_pv volume conflicts pv pvs csi other source conflict = ground arith

past_pv :
    (volume : Pv) (conflicts : GoMap Str → Bool) (pv : Pv) (pvs : List Pv)
    → no_conflict volume conflicts (pv ∷ pvs) ≡ ok true
    → no_conflict volume conflicts pvs ≡ ok true
unfolding no_conflict
past_pv volume conflicts pv pvs h = ground arith

found-ne-ok :
    (volume : Pv) (conflicts : GoMap Str → Bool) (pvs : List Pv) (i : ℕ) (pv : Pv) (csi : CsiSource)
    → get_elem? pvs i ≡ some pv
    → is_other volume pv ≡ true
    → pv.csi ≡ some csi
    → conflicts csi.attributes ≡ true
    → no_conflict volume conflicts pvs ≢ ok true
found-ne-ok volume conflicts [] i pv csi found other source conflict h = cc
found-ne-ok volume conflicts (x ∷ pvs) zero pv csi found other source conflict h =
    let e : x ≡ pv = cc in
    let no = at_pv volume conflicts pv pvs csi other source conflict in
    let yes' = subst (λ y. no_conflict volume conflicts (y ∷ pvs) ≡ ok true) e h in cc
found-ne-ok volume conflicts (x ∷ pvs) (suc i) pv csi found other source conflict h =
    found-ne-ok volume conflicts pvs i pv csi found other source conflict
      (past_pv volume conflicts x pvs h)

pub no_conflict-ne-ok :
    (volume : Pv) (conflicts : GoMap Str → Bool) (pvs : List Pv)
    → Conflicting volume conflicts pvs
    → no_conflict volume conflicts pvs ≢ ok true
no_conflict-ne-ok volume conflicts pvs c =
    found-ne-ok volume conflicts pvs c.position c.pv c.csi c.found c.other c.source c.conflict

-- What follows the check of the others does not run.
abbrev pub OnlyListed : Trace → Result (List Pv) → Trace → Type 0
OnlyListed t answer t' = (t' ≡ t) ⊎ (t' ≡ listed_pvs answer ∷ t)

stopped :
    (r : Result Bool) (answer : Result (List Pv)) (f : Bool → M (Unit {0})) (env : Env) (t : Trace)
    → r ≢ ok true
    → ((t' : Trace) → (f false env t').1 ≡ t')
    → (continue (r, listed_pvs answer ∷ t) f env).1 ≡ listed_pvs answer ∷ t
stopped (ok true) answer f env t h quiet = absurd (h refl)
stopped (ok false) answer f env t h quiet = quiet _
stopped (err e) answer f env t h quiet = refl
stopped diverged answer f env t h quiet = refl

checked :
    (classless : Bool) (p : Provider) (volume : Pv) (csi : CsiSource) (pvs : List Pv) (env : Env)
    (t : Trace)
    → is_empty (value_at csi.attributes (lit "pathPattern")) ≡ false
    → is_empty volume.storage_class ≡ classless
    → env.list_pvs_reply t ≡ ok pvs
    → Conflicting volume (same_sub_path csi.attributes) pvs
    → OnlyListed t (ok pvs) (delete_source p volume csi env t).1
unfolding delete_source check_for_sub_path check_others list_persistent_volumes
checked true p volume csi pvs env t pattern class answer c = inl (rw (pattern, class) refl)
checked false p volume csi pvs env t pattern class answer c = inr (
    rw (pattern, class, answer)
      (stopped (no_conflict volume (same_sub_path csi.attributes) pvs) (ok pvs) _ env t
        (no_conflict-ne-ok volume _ pvs c) (λ t'. refl)))

for_policy :
    (kept : Bool) (p : Provider) (volume : Pv) (csi : CsiSource) (pvs : List Pv) (env : Env)
    (t : Trace)
    → not (str_eq volume.reclaim_policy (lit "Delete")) ≡ kept
    → volume.csi ≡ some csi
    → is_empty (value_at csi.attributes (lit "pathPattern")) ≡ false
    → env.list_pvs_reply t ≡ ok pvs
    → Conflicting volume (same_sub_path csi.attributes) pvs
    → OnlyListed t (ok pvs) (delete p volume env t).1
unfolding delete
for_policy true p volume csi pvs env t kept source pattern answer c = inl (rw kept refl)
for_policy false p volume csi pvs env t kept source pattern answer c =
    rw (kept, source) (checked _ p volume csi pvs env t pattern refl answer c)

-- The directory of a volume with a path pattern is kept while another live volume of its storage
-- class has the same sub-path: Delete makes no request but the listing that shows it, whatever the
-- provider does.
pub delete-OnlyListed :
    (p : Provider) (volume : Pv) (csi : CsiSource) (pvs : List Pv) (env : Env) (t : Trace)
    → volume.csi ≡ some csi
    → is_empty (value_at csi.attributes (lit "pathPattern")) ≡ false
    → env.list_pvs_reply t ≡ ok pvs
    → Conflicting volume (same_sub_path csi.attributes) pvs
    → OnlyListed t (ok pvs) (delete p volume env t).1
delete-OnlyListed p volume csi pvs env t = for_policy _ p volume csi pvs env t refl
