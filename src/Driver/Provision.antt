-- ===== src/Driver/Provision.antt =====
-- Provision and Delete of pkg/driver/provisioner.go.
pub mod Kept
pub mod Secrets
pub mod Counted
use juicedata_juicefs_csi_dr.Prelude.{
  ℕ, Bool, false, not, ◌&&◌, Option, none, some, List, [], ◌∷◌, ◌++◌, Str, lit, str_eq, has_prefix,
  split, trim_space, any, is_empty, format_int, GoMap, insert, if◌then◌else◌,
}
use juicedata_juicefs_csi_dr.Kube.{
  Pv, CsiSource, Pvc, Node, Secret, finalizer, value_at, ok, err, diverged, other, status,
  invalid_argument, incremented, M, ◌>>=◌, ◌>>◌, pure, fail, lift, note, attempt, get_secret, Event,
  ask, Result,
}
use juicedata_juicefs_csi_dr.Util.Templates.{
  ObjectMeta, new_object_meta, string_parser, resolve_secret,
}
use juicedata_juicefs_csi_dr.Util.Sharing.{
  provisioner_secret_name, provisioner_secret_namespace, check_for_sub_path,
  check_for_secret_finalizer, add_secret_finalizer, remove_secret_finalizer,
}
use juicedata_juicefs_csi_dr.Driver.Provider.{Provider}

pub record StorageClass : Type 0 where
  pub name : Str
  pub parameters : GoMap Str
  pub mount_options : List Str
  -- `none` is the nil pointer
  pub reclaim_policy : Option Str

-- `storage` is the number of bytes of the request.
pub record ProvisionOptions : Type 0 where
  pub storage_class : StorageClass
  pub pv_name : Str
  pub pvc : Pvc
  pub has_selector : Bool
  pub access_modes : List Str
  pub storage : ℕ
  pub volume_mode : Str
  pub selected_node : Option Node

-- A volume with the parts of its specification that are only written.
pub record Provisioned : Type 0 where
  pub pv : Pv
  pub capacity : ℕ
  pub access_modes : List Str
  pub volume_mode : Str
  pub expand_secret : Option (Str × Str)

abbrev pub provision_errors : Event
provision_errors = incremented "provision_errors"

unfoldable pub resolve_parameter : ObjectMeta → Str → Str → Str → Str
unfolding has_prefix
resolve_parameter meta pv_name k v =
    if has_prefix k (lit "csi.storage.k8s.io/")
    then resolve_secret meta v pv_name
    else string_parser meta v

unfoldable pub resolve_parameters : ObjectMeta → Str → GoMap Str → GoMap Str
resolve_parameters meta pv_name [] = []
resolve_parameters meta pv_name ((k, v) ∷ parameters) =
    (k, resolve_parameter meta pv_name k v) ∷ resolve_parameters meta pv_name parameters

unfoldable pub resolve_mount_options : ObjectMeta → List Str → List Str
unfolding trim_space split
resolve_mount_options meta [] = []
resolve_mount_options meta (mo ∷ options) =
    split (trim_space (string_parser meta mo)) (lit ",") ++ resolve_mount_options meta options

unfoldable pub insert_all : GoMap Str → GoMap Str → GoMap Str
insert_all [] m = m
insert_all ((k, v) ∷ entries) m = insert_all entries (insert k v m)

unfoldable pub sub_path_of : GoMap Str → Str → Str
unfolding value_at
sub_path_of sc_params pv_name =
    if is_empty (value_at sc_params (lit "pathPattern"))
    then pv_name
    else value_at sc_params (lit "pathPattern")

unfoldable pub volume_context : GoMap Str → Str → ℕ → GoMap Str
unfolding insert_all sub_path_of format_int insert
volume_context sc_params pv_name storage = insert_all sc_params (
    insert (lit "capacity") (format_int storage)
      (insert (lit "subPath") (sub_path_of sc_params pv_name) []))

-- A secret's name and namespace, where both are given.
unfoldable pub expand_secret_of : GoMap Str → Option (Str × Str)
unfolding value_at
expand_secret_of sc_params =
    let name = value_at sc_params (lit "csi.storage.k8s.io/controller-expand-secret-name") in
    let namespace =
      value_at sc_params (lit "csi.storage.k8s.io/controller-expand-secret-namespace") in
    if not (is_empty name) && not (is_empty namespace) then some (name, namespace) else none

unfoldable pub new_volume : Str → ProvisionOptions → ObjectMeta → GoMap Str → Str → Provisioned
unfolding volume_context expand_secret_of resolve_mount_options value_at
new_volume driver_name options meta sc_params policy = record {
  pv = record {
    name = options.pv_name;
    deleting = false;
    storage_class = options.storage_class.name;
    reclaim_policy = policy;
    mount_options = resolve_mount_options meta options.storage_class.mount_options;
    claim_ref = none;
    csi = some (record {
      driver = driver_name;
      volume_handle = options.pv_name;
      attributes = volume_context sc_params options.pv_name options.storage;
      publish_secret = some (
        value_at sc_params (lit "csi.storage.k8s.io/node-publish-secret-name"),
        value_at sc_params (lit "csi.storage.k8s.io/node-publish-secret-namespace"),
      );
    });
  };
  capacity = options.storage;
  access_modes = options.access_modes;
  volume_mode = options.volume_mode;
  expand_secret = expand_secret_of sc_params;
}

-- An error of the finalizer is only logged.
unfoldable pub keep_secret : StorageClass → Str → Secret → M (Unit {0})
unfolding value_at
keep_secret sc policy secret =
    if not (
      str_eq policy (lit "Delete")
      && str_eq (value_at sc.parameters (lit "secretFinalizer")) (lit "true"))
    then pure tt
    else do r ← attempt (add_secret_finalizer secret finalizer); pure tt

unfoldable pub provision_with : ProvisionOptions → ObjectMeta → GoMap Str → Secret → M Provisioned
provision_with options meta sc_params secret = elim options.storage_class.reclaim_policy [
  | none ↦ lift diverged
  | some policy ↦ do
    keep_secret options.storage_class policy secret
    driver_name ← ask (λ env t. env.driver_name)
    pure (new_volume driver_name options meta sc_params policy)
]

abbrev pub on_secret : Result Secret → M Secret
on_secret r = elim r [
  | ok secret ↦ pure secret
  | err e ↦ note provision_errors >> fail (other "unable to provision new pv")
  | diverged ↦ lift diverged
]

unfoldable pub secret_for : GoMap Str → M Secret
unfolding value_at
secret_for sc_params = do
  r ← attempt (
      get_secret (value_at sc_params provisioner_secret_name)
        (value_at sc_params provisioner_secret_namespace))
  on_secret r

unfoldable pub is_read_only : ProvisionOptions → Bool
unfolding any value_at
is_read_only options =
    any (λ am. str_eq am (lit "ReadOnlyMany")) options.access_modes
    && is_empty (value_at options.storage_class.parameters (lit "pathPattern"))

unfoldable pub provision_from : ProvisionOptions → ObjectMeta → GoMap Str → M Provisioned
provision_from options meta sc_params =
    if is_read_only options
    then note provision_errors >> fail (status invalid_argument "read-only mode cannot be used")
    else do secret ← secret_for sc_params; provision_with options meta sc_params secret

unfoldable pub provision : ProvisionOptions → M Provisioned
provision options =
    if options.has_selector
    then fail (other "claim Selector is not supported")
    else let meta = new_object_meta options.pvc options.selected_node in
      provision_from options meta
        (resolve_parameters meta options.pv_name options.storage_class.parameters)

-- An error of the last patch is dropped.
unfoldable pub release_secret : Pv → CsiSource → Secret → M (Unit {0})
unfolding value_at
release_secret volume csi secret =
    if not (str_eq (value_at csi.attributes (lit "secretFinalizer")) (lit "true"))
    then pure tt
    else do
      should_remove ← check_for_secret_finalizer volume csi.attributes
      if not should_remove
          then pure tt
          else do r ← attempt (remove_secret_finalizer secret finalizer); pure tt

unfoldable pub delete_from : Provider → Pv → CsiSource → Str × Str → M (Unit {0})
unfolding value_at
delete_from p volume csi (secret_name, secret_namespace) = do
  secret ← get_secret secret_name secret_namespace
  r ← attempt (
      p.jfs_delete_vol volume.name (value_at csi.attributes (lit "subPath")) secret.secret_data
        csi.attributes volume.mount_options)
  elim r [
    | ok u ↦ release_secret volume csi secret
    | err e ↦ fail (other "unable to provision delete volume")
    | diverged ↦ lift diverged
  ]

unfoldable pub delete_source : Provider → Pv → CsiSource → M (Unit {0})
unfolding value_at
delete_source p volume csi = do
  should_delete ←
      check_for_sub_path volume csi.attributes (value_at csi.attributes (lit "pathPattern"))
  if not should_delete then pure tt else elim csi.publish_secret [
    | none ↦ lift diverged
    | some ref ↦ delete_from p volume csi ref
  ]

unfoldable pub delete : Provider → Pv → M (Unit {0})
delete p volume =
    if not (str_eq volume.reclaim_policy (lit "Delete"))
    then pure tt
    else elim volume.csi [ none ↦ lift diverged | some csi ↦ delete_source p volume csi ]
