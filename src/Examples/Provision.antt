-- ===== src/Examples/Provision.antt =====
-- The provisioner at concrete volumes.
use juicedata_juicefs_csi_dr.Prelude.{
  ◌≡◌, refl, true, false, none, some, List, [], ◌∷◌, lit, GoMap, Str, str_eq, Bool, subst, is_empty,
  lookup,
}
use juicedata_juicefs_csi_dr.Kube.{
  Pv, CsiSource, Env, ok, value_at, Keeps, ok-injective, pure-Keeps,
}
use juicedata_juicefs_csi_dr.Util.Sharing.{is_other, same_sub_path, same_secret}
use juicedata_juicefs_csi_dr.Driver.Provision.{delete}
use juicedata_juicefs_csi_dr.Driver.Provision.Kept.{OnlyListed, Conflicting, delete-OnlyListed}
use juicedata_juicefs_csi_dr.Driver.Provision.Secrets.{AlwaysShared, Patched, delete-Keeps}
use juicedata_juicefs_csi_dr.Examples.World.{empty_world}
use juicedata_juicefs_csi_dr.Examples.Csi.{example_provider}

abbrev source_of_both : CsiSource
source_of_both = record {
  driver = lit "csi.juicefs.com";
  volume_handle = lit "pvc-1";
  attributes =
      (lit "subPath", lit "shared")
      ∷ (lit "pathPattern", lit "shared")
      ∷ (lit "secretFinalizer", lit "true")
      ∷ (lit "csi.storage.k8s.io/provisioner-secret-name", lit "fs")
      ∷ (lit "csi.storage.k8s.io/provisioner-secret-namespace", lit "kube-system")
      ∷ [];
  publish_secret = some (lit "fs", lit "kube-system");
}

abbrev deleted_pv : Pv
deleted_pv = record {
  name = lit "pvc-1";
  deleting = false;
  storage_class = lit "sc";
  reclaim_policy = lit "Delete";
  mount_options = [];
  claim_ref = none;
  csi = some source_of_both;
}

-- Another volume with the same directory and the same secret.
abbrev twin_pv : Pv
twin_pv = record deleted_pv { name = lit "pvc-2" }

abbrev both_pvs : List Pv
both_pvs = deleted_pv ∷ twin_pv ∷ []

abbrev two_volumes : Env
two_volumes = record empty_world { list_pvs_reply = λ t. ok both_pvs }

twin-Conflicting :
    (conflicts : GoMap Str → Bool)
    → conflicts source_of_both.attributes ≡ true
    → Conflicting deleted_pv conflicts both_pvs
unfolding is_other str_eq
twin-Conflicting conflicts h = record {
  position = 1;
  pv = twin_pv;
  csi = source_of_both;
  found = refl;
  other = refl;
  source = refl;
  conflict = h;
}

shares_path : Conflicting deleted_pv (same_sub_path source_of_both.attributes) both_pvs
unfolding same_sub_path value_at str_eq lookup
shares_path = twin-Conflicting (same_sub_path source_of_both.attributes) refl

shares_secret : Conflicting deleted_pv (same_secret source_of_both.attributes) both_pvs
unfolding same_secret value_at str_eq lookup
shares_secret = twin-Conflicting (same_secret source_of_both.attributes) refl

has_pattern : is_empty (value_at source_of_both.attributes (lit "pathPattern")) ≡ false
unfolding value_at lookup str_eq
has_pattern = refl

delete-OnlyListed_example :
    OnlyListed [] (ok both_pvs) (delete example_provider deleted_pv two_volumes []).1
delete-OnlyListed_example =
    delete-OnlyListed example_provider deleted_pv source_of_both both_pvs two_volumes [] refl
      has_pattern refl shares_path

always_shared : AlwaysShared two_volumes deleted_pv source_of_both
always_shared t pvs e =
    subst (Conflicting deleted_pv (same_secret source_of_both.attributes)) (ok-injective e)
      shares_secret

delete-Keeps_example : Keeps two_volumes (Patched 0) (delete example_provider deleted_pv)
delete-Keeps_example =
    delete-Keeps example_provider deleted_pv source_of_both two_volumes 0 refl always_shared
      (λ name sub_path secrets attributes options. pure-Keeps tt)
