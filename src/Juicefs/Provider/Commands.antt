-- ===== src/Juicefs/Provider/Commands.antt =====
-- The commands of the clients in pkg/juicefs/juicefs.go: AuthFs, ceFormat, SetQuota, Status and
-- GetJfsVolUUID. A nil map of secrets is an empty one; what the variables of a command are is not
-- recorded.
use juicedata_juicefs_csi_dr.Prelude.{
  ℕ, ◌/◌, ◌==◌, Bool, true, false, not, ◌&&◌, ◌||◌, Option, none, some, List, [], ◌∷◌, ◌++◌, Str,
  lit, str_eq, get_str, lookup, insert, delete, contains, join, is_empty, format_int, path_join,
  GoMap, if◌then◌else◌,
}
use juicedata_juicefs_csi_dr.Kube.{
  Result, ok, err, diverged, other, status, invalid_argument, not_exist, CommandOutput, M, ◌>>=◌,
  ◌>>◌, pure, fail, lift, when, attempt, ask, run, stat, write_file,
}
use juicedata_juicefs_csi_dr.Util.Escape.{escape_bash_str}
use juicedata_juicefs_csi_dr.Config.FormatOptions.{
  parse_format_options, represent_format_options, strip_format_options,
}
use juicedata_juicefs_csi_dr.Juicefs.Settings.{JfsSetting}

abbrev pub cli_path : Str
cli_path = lit "/usr/bin/juicefs"

abbrev pub ce_cli_path : Str
ce_cli_path = lit "/usr/local/bin/juicefs"

-- `--k=v` for each key with a value, the value quoted.
unfoldable pub shown : GoMap Str → List Str → List Str
unfolding escape_bash_str
shown secrets [] = []
shown secrets (k ∷ keys) =
    let rest = shown secrets keys in
    if is_empty (get_str k secrets)
    then rest
    else (lit "--" ++ (k ++ (lit "=" ++ escape_bash_str (get_str k secrets)))) ∷ rest

-- `--k=${v}` for each key with a value; the variable has the value.
unfoldable pub stripped : GoMap Str → GoMap Str → List Str
stripped secrets [] = []
stripped secrets ((k, v) ∷ keys) =
    let rest = stripped secrets keys in
    if is_empty (get_str k secrets)
    then rest
    else (lit "--" ++ (k ++ (lit "=${" ++ (v ++ lit "}")))) ∷ rest

-- The old name of a key gives way to the new one.
unfoldable pub rename_key : GoMap Str → Str → Str → GoMap Str
unfolding lookup insert delete
rename_key secrets old new = elim (lookup old secrets) [
  | none ↦ secrets
  | some v ↦ delete old (insert new v secrets)
]

unfoldable pub compatible : GoMap Str → GoMap Str
unfolding rename_key
compatible secrets =
    rename_key
      (rename_key
        (rename_key (rename_key secrets (lit "accesskey") (lit "access-key")) (lit "accesskey2")
          (lit "access-key2"))
        (lit "secretkey") (lit "secret-key"))
      (lit "secretkey2") (lit "secret-key2")

abbrev pub auth_keys : List Str
auth_keys = lit "access-key" ∷ lit "access-key2" ∷ lit "bucket" ∷ lit "bucket2" ∷ lit "subdir" ∷ []

abbrev pub auth_stripped : GoMap Str
auth_stripped =
    (lit "token", lit "token")
    ∷ (lit "secret-key", lit "secretkey")
    ∷ (lit "secret-key2", lit "secretkey2")
    ∷ (lit "passphrase", lit "passphrase")
    ∷ []

abbrev pub auth_stripped_keys : List Str
auth_stripped_keys = lit "token" ∷ lit "secret-key" ∷ lit "secret-key2" ∷ lit "passphrase" ∷ []

-- A command as it is shown, and the arguments as they are run.
pub record Command : Type 0 where
  pub text : List Str
  pub args : List Str

abbrev add_both : Command → List Str → Command
add_both c more = record { text = c.text ++ more; args = c.args ++ more }

abbrev pub add_parsed : Command → Result (List (Str × Str)) → Result Command
add_parsed c (ok options) = ok (record {
  text = c.text ++ strip_format_options options (lit "session-token" ∷ []);
  args = c.args ++ represent_format_options options;
})
add_parsed c (err e) = err (status invalid_argument "Parse format options error")
add_parsed c diverged = diverged

-- The options of the format, which may hold a session token.
unfoldable pub add_format_options : Str → Command → Result Command
unfolding represent_format_options strip_format_options parse_format_options
add_format_options format_options c =
    if is_empty format_options then ok c else add_parsed c (parse_format_options format_options)

abbrev pub add_conf_dir : Str → Command → Command
add_conf_dir path c = if is_empty path then c else add_both c ((lit "--conf-dir=" ++ path) ∷ [])

unfoldable pub auth_command : GoMap Str → Str → Command
unfolding shown stripped escape_bash_str
auth_command secrets name = record {
  text =
      (cli_path ∷ lit "auth" ∷ escape_bash_str name ∷ [])
      ++ (shown secrets auth_keys ++ stripped secrets auth_stripped);
  args =
      (lit "auth" ∷ escape_bash_str name ∷ [])
      ++ (shown secrets auth_keys ++ shown secrets auth_stripped_keys);
}

-- The configuration file of the client, if it is not there.
unfoldable pub write_config : GoMap Str → JfsSetting → M (Unit {0})
write_config secrets setting = do
  let path =
      path_join (setting.client_conf_path ∷ (get_str (lit "name") secrets ++ lit ".conf") ∷ [])
  r ← attempt (stat path)
  elim r [
    | ok info ↦ pure tt
    | err not_exist ↦ write_file path (get_str (lit "initconfig") secrets)
    | err e ↦ pure tt
    | diverged ↦ lift diverged
  ]

abbrev pub is_enabled : Option Str → Bool
is_enabled none = false
is_enabled (some v) = str_eq v (lit "enabled")

-- What AuthFs does where the configuration is not to be updated.
unfoldable pub prepare_no_update : GoMap Str → JfsSetting → M (Unit {0})
prepare_no_update secrets setting =
    if is_empty (get_str (lit "bucket") secrets)
    then fail (other "bucket argument is required when --no-update option is provided")
    else do
      by_process ← ask (λ env t. env.by_process)
      when (by_process && not (is_empty (get_str (lit "initconfig") secrets)))
          (write_config secrets setting)

unfoldable pub no_update_command : Bool → Command → Command
no_update_command no_update c = if no_update then add_both c (lit "--no-update" ∷ []) else c

unfoldable pub output_of : Str → CommandOutput → M Str
output_of what out =
    if not out.failed
    then pure out.output
    else if out.timed_out
    then fail (other "timed out")
    else fail (other "command failed")

-- A mount pod is to run the text; in a process the command is run here.
unfoldable pub text_or_output : Bool → Str → Command → M Str
unfolding join
text_or_output runs path c =
    if not runs
    then pure (join c.text (lit " "))
    else do out ← run (path ∷ c.args); output_of path out

unfoldable pub auth_with : Bool → GoMap Str → JfsSetting → Bool → M Str
unfolding auth_command no_update_command add_format_options
auth_with no_update secrets setting force = do
  c ← lift (
      add_format_options setting.format_options
        (no_update_command no_update (auth_command secrets (get_str (lit "name") secrets))))
  by_process ← ask (λ env t. env.by_process)
  text_or_output (force || by_process) cli_path (add_conf_dir setting.client_conf_path c)

unfoldable pub auth_compatible : GoMap Str → JfsSetting → Bool → M Str
auth_compatible secrets setting force = do
  no_update ← ask (λ env t. is_enabled (env.lookup_env (lit "JFS_NO_UPDATE_CONFIG")))
  when no_update (prepare_no_update secrets setting)
  auth_with no_update secrets setting force

unfoldable pub auth_fs : GoMap Str → JfsSetting → Bool → M Str
unfolding compatible
auth_fs secrets setting force =
    if is_empty (get_str (lit "name") secrets)
    then fail (status invalid_argument "Empty name")
    else auth_compatible (compatible secrets) setting force

abbrev pub format_keys : List Str
format_keys =
    lit "storage"
    ∷ lit "bucket"
    ∷ lit "access-key"
    ∷ lit "block-size"
    ∷ lit "compress"
    ∷ lit "trash-days"
    ∷ lit "capacity"
    ∷ lit "inodes"
    ∷ lit "shards"
    ∷ []

-- In the text, the name is not quoted.
unfoldable pub format_command : GoMap Str → Bool → Command
unfolding shown stripped escape_bash_str
format_command secrets no_update =
    let flags = if no_update then lit "--no-update" ∷ [] else [] in
    record {
      text =
          (ce_cli_path ∷ lit "format" ∷ flags)
          ++ (shown secrets format_keys
              ++ (stripped secrets ((lit "secret-key", lit "secretkey") ∷ [])
                  ++ lit "${metaurl}" ∷ get_str (lit "name") secrets ∷ []));
      args =
          (lit "format" ∷ flags)
          ++ (shown secrets format_keys
              ++ (shown secrets (lit "secret-key" ∷ [])
                  ++ escape_bash_str (get_str (lit "metaurl") secrets)
                    ∷ escape_bash_str (get_str (lit "name") secrets)
                    ∷ []));
    }

unfoldable pub ce_format : GoMap Str → Bool → JfsSetting → M Str
unfolding format_command add_format_options
ce_format secrets no_update setting =
    if is_empty (get_str (lit "name") secrets)
    then fail (status invalid_argument "Empty name")
    else if is_empty (get_str (lit "metaurl") secrets)
    then fail (status invalid_argument "Empty metaurl")
    else do
      c ← lift (add_format_options setting.format_options (format_command secrets no_update))
      by_process ← ask (λ env t. env.by_process)
      text_or_output by_process ce_cli_path c

-- A client without quotas is no error.
unfoldable pub wrap_set_quota_err : CommandOutput → M (Unit {0})
unfolding contains
wrap_set_quota_err out =
    if not out.failed
      || (contains out.output (lit "invalid command: quota")
          || contains out.output (lit "No help topic for 'quota'"))
    then pure tt
    else fail (other "set quota")

unfoldable pub quota_args : Str → Str → ℕ → List Str
unfolding format_int
quota_args target quota_path size =
    lit "quota"
    ∷ lit "set"
    ∷ target
    ∷ lit "--path"
    ∷ quota_path
    ∷ lit "--capacity"
    ∷ format_int size
    ∷ []

-- The community client goes on in the background where the time is over, with no error.
unfoldable pub ce_set_quota : GoMap Str → Str → ℕ → M (Unit {0})
unfolding quota_args wrap_set_quota_err
ce_set_quota secrets quota_path size = do
  out ← run (ce_cli_path ∷ quota_args (get_str (lit "metaurl") secrets) quota_path size)
  if out.timed_out then pure tt else wrap_set_quota_err out

unfoldable pub ee_set_quota : GoMap Str → JfsSetting → Str → ℕ → M (Unit {0})
unfolding quota_args wrap_set_quota_err
ee_set_quota secrets setting quota_path size = do
  auth_fs secrets setting true
  out ← run (cli_path ∷ quota_args (get_str (lit "name") secrets) quota_path size)
  wrap_set_quota_err out

-- In units of 2 ^ 30 bytes.
unfoldable pub set_quota : GoMap Str → JfsSetting → Str → ℕ → M (Unit {0})
set_quota secrets setting quota_path capacity =
    let size = capacity / 1024 / 1024 / 1024 in
    if size == 0
    then fail (other "capacity is too small, at least 1GiB for quota")
    else if setting.is_ce
    then ce_set_quota secrets quota_path size
    else ee_set_quota secrets setting quota_path size

unfoldable pub status_of : Str → M (Unit {0})
unfolding contains
status_of meta_url = do
  out ← run (ce_cli_path ∷ lit "status" ∷ meta_url ∷ [])
  if out.timed_out
      then fail (other "juicefs status timed out")
      else if not out.failed || contains out.output (lit "database is not formatted")
      then pure tt
      else fail (other "juicefs status")
