-- ===== src/Util/Sharing.antt =====
-- The checks of pkg/util/pvc.go on the other volumes of a storage class, and the finalizer of a
-- secret.
use juicedata_juicefs_csi_dr.Prelude.{
  Bool, true, false, not, ◌&&◌, ◌||◌, List, [], ◌∷◌, ◌++◌, Str, lit, str_eq, GoMap, is_empty,
  contains_string, keep, if◌then◌else◌, none, some,
}
use juicedata_juicefs_csi_dr.Kube.{
  Pv, Secret, Result, ok, diverged, M, ◌>>=◌, pure, lift, value_at, list_persistent_volumes,
  patch_secret,
}

abbrev pub provisioner_secret_name : Str
provisioner_secret_name = lit "csi.storage.k8s.io/provisioner-secret-name"

abbrev pub provisioner_secret_namespace : Str
provisioner_secret_namespace = lit "csi.storage.k8s.io/provisioner-secret-namespace"

-- The loop passes by the volume itself, volumes in deletion, and those of other classes.
unfoldable pub is_other : Pv → Pv → Bool
is_other volume pv = not (
    str_eq pv.name volume.name
    || (pv.deleting || not (str_eq pv.storage_class volume.storage_class)))

-- Has no other volume attributes that conflict? A volume without `csi` makes the loop panic.
unfoldable pub no_conflict : Pv → (GoMap Str → Bool) → List Pv → Result Bool
unfolding is_other
no_conflict volume conflicts [] = ok true
no_conflict volume conflicts (pv ∷ pvs) =
    let rest = no_conflict volume conflicts pvs in
    if not (is_other volume pv) then rest else elim pv.csi [
      | none ↦ diverged
      | some csi ↦ if conflicts csi.attributes then ok false else rest
    ]

unfoldable pub same_sub_path : GoMap Str → GoMap Str → Bool
unfolding value_at
same_sub_path mine attributes =
    str_eq (value_at attributes (lit "subPath")) (value_at mine (lit "subPath"))

unfoldable pub check_others : Pv → (GoMap Str → Bool) → M Bool
check_others volume conflicts = do
  pvs ← list_persistent_volumes
  lift (no_conflict volume conflicts pvs)

unfoldable pub check_for_sub_path : Pv → GoMap Str → Str → M Bool
check_for_sub_path volume attributes path_pattern =
    if is_empty path_pattern
    then pure true
    else if is_empty volume.storage_class
    then pure false
    else check_others volume (same_sub_path attributes)

unfoldable pub same_secret : GoMap Str → GoMap Str → Bool
unfolding value_at
same_secret mine attributes =
    str_eq (value_at mine provisioner_secret_namespace)
      (value_at attributes provisioner_secret_namespace)
    && str_eq (value_at mine provisioner_secret_name) (value_at attributes provisioner_secret_name)

unfoldable pub check_for_secret_finalizer : Pv → GoMap Str → M Bool
check_for_secret_finalizer volume attributes =
    if is_empty volume.storage_class
      || (is_empty (value_at attributes provisioner_secret_namespace)
          || is_empty (value_at attributes provisioner_secret_name))
    then pure false
    else check_others volume (same_secret attributes)

unfoldable pub add_secret_finalizer : Secret → Str → M (Unit {0})
add_secret_finalizer secret finalizer =
    if contains_string secret.finalizers finalizer
    then pure tt
    else patch_secret secret (secret.finalizers ++ finalizer ∷ [])

unfoldable pub remove_secret_finalizer : Secret → Str → M (Unit {0})
remove_secret_finalizer secret finalizer =
    if not (contains_string secret.finalizers finalizer)
    then pure tt
    else patch_secret secret (keep (λ f. not (str_eq f finalizer)) secret.finalizers)
