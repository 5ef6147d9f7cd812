-- ===== src/Juicefs/Builder.antt =====
-- The texts that pkg/juicefs/mount/builder makes of the settings: commands, mount options, labels
-- and annotations of mount pods, and the data of their secret.
pub mod Subdir
use juicedata_juicefs_csi_dr.Prelude.{
  ℕ, Bool, true, false, not, ◌&&◌, Option, none, some, List, [], ◌∷◌, ◌++◌, Str, lit, str_eq,
  has_prefix, split, join, any, is_empty, is_digit, digits_value, get_or_else, insert, take, drop,
  path_join, GoMap, ◌==◌, if◌then◌else◌,
}
use juicedata_juicefs_csi_dr.Kube.{
  Result, ok, err, diverged, unique_id_key, juicefs_uuid, delete_delay_time_key,
}
use juicedata_juicefs_csi_dr.Util.Escape.{escape_bash_str}
use juicedata_juicefs_csi_dr.Util.Names.{quote_for_shell, strip_readonly_option}
use juicedata_juicefs_csi_dr.Config.FormatOptions.{parse_format_options}
use juicedata_juicefs_csi_dr.Juicefs.Settings.{JfsSetting, PodAttr}
use juicedata_juicefs_csi_dr.Juicefs.Provider.Commands.{cli_path, ce_cli_path}

abbrev rsa_option : Str
rsa_option = lit "rsa-key=/root/.rsa/rsa-key.pem"

unfoldable pub metrics_option : Bool → Str
metrics_option host_network =
    if host_network then lit "metrics=0.0.0.0:0" else lit "metrics=0.0.0.0:9567"

unfoldable pub with_metrics : Bool → List Str → List Str
unfolding metrics_option any has_prefix
with_metrics host_network options =
    if any (λ o. has_prefix o (lit "metrics=")) options
    then options
    else options ++ metrics_option host_network ∷ []

unfoldable pub ce_mount_args : PodAttr → JfsSetting → List Str
unfolding with_metrics join escape_bash_str
ce_mount_args attr setting =
    lit "/bin/mount.juicefs"
    ∷ lit "${metaurl}"
    ∷ escape_bash_str setting.mount_path
    ∷ lit "-o"
    ∷ escape_bash_str (join (with_metrics attr.host_network setting.options) (lit ","))
    ∷ []

unfoldable pub ee_mount_args : JfsSetting → List Str
unfolding join escape_bash_str
ee_mount_args setting =
    let rsa = if is_empty setting.encrypt_rsa_key then [] else rsa_option ∷ [] in
    lit "/sbin/mount.juicefs"
    ∷ escape_bash_str setting.source
    ∷ escape_bash_str setting.mount_path
    ∷ lit "-o"
    ∷ escape_bash_str
        (join ((lit "foreground" ∷ lit "no-update" ∷ []) ++ (rsa ++ setting.options)) (lit ","))
    ∷ []

unfoldable pub gen_mount_command : PodAttr → JfsSetting → Str
unfolding quote_for_shell ce_mount_args ee_mount_args join
gen_mount_command attr setting =
    quote_for_shell
      (join (if setting.is_ce then ce_mount_args attr setting else ee_mount_args setting) (lit " "))

unfoldable pub gen_init_command : JfsSetting → Str
unfolding path_join
gen_init_command setting =
    let encrypted =
      if not (is_empty setting.encrypt_rsa_key) && setting.is_ce
      then setting.format_cmd ++ lit " --encrypt-rsa-key=/root/.rsa/rsa-key.pem"
      else setting.format_cmd in
    if is_empty setting.init_config
    then encrypted
    else lit "cp "
      ++ (path_join (lit "/etc/juicefs" ∷ (setting.name ++ lit ".conf") ∷ [])
          ++ (lit " " ++ (setting.client_conf_path ++ (10 ∷ encrypted))))

-- The command of a job, on the options without "ro" and "read-only".
unfoldable pub job_args : JfsSetting → List Str → List Str
unfolding join escape_bash_str
job_args setting options =
    if setting.is_ce
    then lit "/bin/mount.juicefs"
      ∷ lit "${metaurl}"
      ∷ lit "/mnt/jfs"
      ∷ (if is_empty options then [] else lit "-o" ∷ escape_bash_str (join options (lit ",")) ∷ [])
    else let rsa = if is_empty setting.encrypt_rsa_key then [] else rsa_option ∷ [] in
      lit "/sbin/mount.juicefs"
      ∷ escape_bash_str setting.source
      ∷ lit "/mnt/jfs"
      ∷ lit "-o"
      ∷ escape_bash_str (join (options ++ (rsa ++ lit "background" ∷ [])) (lit ","))
      ∷ []

unfoldable pub get_job_command : JfsSetting → Str
unfolding quote_for_shell job_args strip_readonly_option join
get_job_command setting =
    quote_for_shell (join (job_args setting (strip_readonly_option setting.options)) (lit " "))

unfoldable pub get_create_volume_cmd : JfsSetting → Str
unfolding get_job_command escape_bash_str
get_create_volume_cmd setting =
    let sub_path = escape_bash_str setting.sub_path in
    get_job_command setting
    ++ (lit " && if [ ! -d /mnt/jfs/"
        ++ (sub_path ++ (lit " ]; then mkdir -m 777 /mnt/jfs/" ++ (sub_path ++ lit "; fi;"))))

unfoldable pub get_delete_volume_cmd : JfsSetting → Str
unfolding get_job_command escape_bash_str
get_delete_volume_cmd setting =
    let sub_path = escape_bash_str setting.sub_path in
    get_job_command setting
    ++ (lit " && if [ -d /mnt/jfs/"
        ++ (sub_path
            ++ (lit " ]; then "
                ++ ((if setting.is_ce then ce_cli_path else cli_path)
                    ++ (lit " rmr /mnt/jfs/" ++ (sub_path ++ lit "; fi;"))))))

abbrev pub subdir_of_option : Str → Str → List Str → Str
subdir_of_option sub_path subdir (k ∷ v ∷ []) =
    if str_eq k (lit "subdir") then path_join (v ∷ sub_path ∷ []) else subdir
subdir_of_option sub_path subdir _ = subdir

abbrev pub is_subdir : Str → Bool
is_subdir option = has_prefix option (lit "subdir=")

-- The options without those of the directory, and the directory.
unfoldable pub scan_subdir : Str → Str → List Str → List Str × Str
unfolding has_prefix split path_join str_eq
scan_subdir sub_path subdir [] = ([], subdir)
scan_subdir sub_path subdir (option ∷ options) =
    let (kept, last) =
      scan_subdir sub_path
        (if is_subdir option
          then subdir_of_option sub_path subdir (split option (lit "="))
          else subdir)
        options in
    (if is_subdir option then kept else option ∷ kept, last)

unfoldable pub overwrite_subdir_with_sub_path : JfsSetting → JfsSetting
unfolding scan_subdir
overwrite_subdir_with_sub_path setting =
    let (options, subdir) = scan_subdir setting.sub_path setting.sub_path setting.options in
    if is_empty setting.sub_path
    then setting
    else record setting { options = options ++ (lit "subdir=" ++ subdir) ∷ [] }

unfoldable pub insert_all : GoMap Str → GoMap Str → GoMap Str
unfolding insert
insert_all [] m = m
insert_all ((k, v) ∷ entries) m = insert_all entries (insert k v m)

abbrev insert_if : Bool → Str → Str → GoMap Str → GoMap Str
insert_if b k v m = if b then insert k v m else m

unfoldable pub gen_labels : PodAttr → JfsSetting → GoMap Str
unfolding insert_all insert
gen_labels attr setting = insert_all attr.labels (
    (lit "app.kubernetes.io/name", lit "juicefs-mount") ∷ (lit "volume-id", setting.unique_id) ∷ [])

unfoldable pub gen_annotations : PodAttr → JfsSetting → GoMap Str
unfolding insert_all insert
gen_annotations attr setting =
    insert_if setting.clean_cache (lit "juicefs-clean-cache") (lit "true") (
      insert unique_id_key setting.unique_id (
        insert juicefs_uuid setting.uuid (
          insert_if (not (is_empty setting.deleted_delay)) delete_delay_time_key
            setting.deleted_delay (insert_all attr.annotations []))))

unfoldable pub with_token : List (Str × Str) → GoMap Str → GoMap Str
unfolding insert str_eq
with_token [] m = m
with_token ((k, v) ∷ options) m =
    with_token options (insert_if (str_eq k (lit "session-token")) (lit "session-token") v m)

abbrev with_parsed : Result (List (Str × Str)) → GoMap Str → GoMap Str
with_parsed (ok options) m = with_token options m
with_parsed _ m = m

abbrev insert_text : Str → Str → GoMap Str → GoMap Str
insert_text k v m = insert_if (not (is_empty v)) k v m

-- NewSecret: the variables and files of a mount pod. `script` is the text of the script that
-- checks the mount.
unfoldable pub new_secret_data : Str → JfsSetting → GoMap Str
unfolding insert_all with_token parse_format_options insert
new_secret_data script setting = insert_all setting.envs (
    with_parsed (parse_format_options setting.format_options) (
      insert (lit "check_mount.sh") script (
        insert_text (lit "initconfig") setting.init_config (
          insert_text (lit "encrypt_rsa_key") setting.encrypt_rsa_key (
            insert_text (lit "passphrase") setting.passphrase (
              insert_text (lit "token") setting.token (
                insert_text (lit "secretkey2") setting.secret_key2 (
                  insert_text (lit "secretkey") setting.secret_key
                    (insert_text (lit "metaurl") setting.meta_url [])))))))))
