-- ===== src/Juicefs/Provider/Secrecy.antt =====
-- The commands of pkg/juicefs/juicefs.go that mount pods run, as texts, do not depend on the secrets
-- that are left to variables.
use juicedata_juicefs_csi_dr.Prelude.{
  ◌≡◌, refl, ap, ◌∙◌, Bool, true, false, List, [], ◌∷◌, ◌++◌, Str, lit, get_str, is_empty, join,
  GoMap, if◌then◌else◌,
}
use juicedata_juicefs_csi_dr.Kube.{
  when, continue, ◌>>=◌, lift, ask, Env, Trace, Result, ok, err, diverged, M,
}
use juicedata_juicefs_csi_dr.Config.FormatOptions.{strip_format_options, parse_format_options}
use juicedata_juicefs_csi_dr.Juicefs.Settings.{JfsSetting}
use juicedata_juicefs_csi_dr.Juicefs.Provider.Commands.{
  auth_with, add_parsed, add_conf_dir, shown, stripped, Command, add_format_options, auth_keys,
  auth_stripped, auth_command, no_update_command, auth_compatible, auth_fs, compatible, format_keys,
  format_command, ce_format, text_or_output, prepare_no_update, is_enabled, ce_cli_path, cli_path,
}

-- Two maps of secrets agree on the keys.
abbrev Agree : GoMap Str → GoMap Str → List Str → Type 0
Agree m m' [] = Unit {0}
Agree m m' (k ∷ keys) = (get_str k m ≡ get_str k m') × Agree m m' keys

-- They have the same of the keys, whatever the values.
abbrev SameKeys : GoMap Str → GoMap Str → GoMap Str → Type 0
SameKeys m m' [] = Unit {0}
SameKeys m m' ((k, v) ∷ keys) =
    (is_empty (get_str k m) ≡ is_empty (get_str k m')) × SameKeys m m' keys

shown-Agree : (m m' : GoMap Str) (keys : List Str) → Agree m m' keys → shown m keys ≡ shown m' keys
unfolding shown
shown-Agree m m' [] h = refl
shown-Agree m m' (k ∷ keys) (e, h) = rw (e, shown-Agree m m' keys h) refl

stripped-same : (m m' keys : GoMap Str) → SameKeys m m' keys → stripped m keys ≡ stripped m' keys
unfolding stripped
stripped-same m m' [] h = refl
stripped-same m m' ((k, v) ∷ keys) (e, h) = rw (e, stripped-same m m' keys h) refl

-- The texts of two commands are the same, or so are their errors.
abbrev SameText : Result Command → Result Command → Type 0
SameText (ok c) (ok c') = c.text ≡ c'.text
SameText (err e) (err e') = e ≡ e'
SameText diverged diverged = Unit {0}
SameText _ _ = ⊥

add_parsed-SameText :
    (r : Result (List (Str × Str))) (c c' : Command)
    → c.text ≡ c'.text
    → SameText (add_parsed c r) (add_parsed c' r)
add_parsed-SameText (ok options) c c' h =
    ap (λ text. text ++ strip_format_options options (lit "session-token" ∷ [])) h
add_parsed-SameText (err e) c c' h = refl
add_parsed-SameText diverged c c' h = tt

if-SameText :
    (b : Bool) (r r' s s' : Result Command)
    → SameText r r'
    → SameText s s'
    → SameText (if b then r else s) (if b then r' else s')
if-SameText true r r' s s' h k = h
if-SameText false r r' s s' h k = k

add_options-SameText :
    (format_options : Str) (c c' : Command)
    → c.text ≡ c'.text
    → SameText (add_format_options format_options c) (add_format_options format_options c')
unfolding add_format_options
add_options-SameText format_options c c' h =
    if-SameText (is_empty format_options) (ok c) (ok c') _ _ h
      (add_parsed-SameText (parse_format_options format_options) c c' h)

-- What follows shows the text, where nothing is run.
shown_text :
    (r r' : Result Command) (path : Str) (g : Command → Command) (env : Env) (t : Trace)
    → env.by_process ≡ false
    → ((c c' : Command) → c.text ≡ c'.text → (g c).text ≡ (g c').text)
    → SameText r r'
    → (lift r >>= λ c. ask (λ env t. env.by_process) >>= λ runs. text_or_output runs path (g c)) env
        t
      ≡ (lift r' >>= λ c. ask (λ env t. env.by_process) >>= λ runs. text_or_output runs path (g c))
          env t
unfolding text_or_output
shown_text (ok c) (ok c') path g env t idle same h =
    rw idle (ap (λ text. (ok (join text (lit " ")), t)) (same c c' h))
shown_text (ok c) (err e) path g env t idle same h = absurd h
shown_text (ok c) diverged path g env t idle same h = absurd h
shown_text (err e) (ok c) path g env t idle same h = absurd h
shown_text (err e) (err e') path g env t idle same h = ap (λ x. (err x, t)) h
shown_text (err e) diverged path g env t idle same h = absurd h
shown_text diverged (ok c) path g env t idle same h = absurd h
shown_text diverged (err e) path g env t idle same h = absurd h
shown_text diverged diverged path g env t idle same h = refl

same_guard {ℓ} :
    {A : Type ℓ} (b b' : Bool) (refused m m' : M A) (env : Env) (t : Trace)
    → b ≡ b'
    → m env t ≡ m' env t
    → (if b then refused else m) env t ≡ (if b' then refused else m') env t
same_guard true true refused m m' env t e h = refl
same_guard true false refused m m' env t e h = cc
same_guard false true refused m m' env t e h = cc
same_guard false false refused m m' env t e h = h

continue-same {ℓ κ} :
    {A : Type ℓ} {B : Type κ} (r : Result A × Trace) (f f' : A → M B) (env : Env)
    → ((a : A) (t : Trace) → f a env t ≡ f' a env t)
    → continue r f env ≡ continue r f' env
continue-same (ok a, t) f f' env h = h a t
continue-same (err e, t) f f' env h = refl
continue-same (diverged, t) f f' env h = refl

-- Two maps of secrets that differ in the address and in the secret key alone.
pub record FormatAlike (m m' : GoMap Str) : Type 0 where
  pub visible : Agree m m' (lit "name" ∷ format_keys)
  pub hidden :
      SameKeys m m' ((lit "metaurl", lit "metaurl") ∷ (lit "secret-key", lit "secretkey") ∷ [])

format-text :
    (m m' : GoMap Str) (no_update : Bool)
    → FormatAlike m m'
    → (format_command m no_update).text ≡ (format_command m' no_update).text
unfolding format_command
format-text m m' no_update h =
    let keys = shown-Agree m m' format_keys h.visible.1 in
    let secret = stripped-same m m' ((lit "secret-key", lit "secretkey") ∷ []) (h.hidden.1.0, tt) in
    rw (h.visible.0, keys, secret) refl

-- The text of the command that formats a file system does not depend on the address of its database
-- and on its secret key, where a mount pod is to run it.
pub ce_format-secret :
    (m m' : GoMap Str) (no_update : Bool) (setting : JfsSetting) (env : Env) (t : Trace)
    → env.by_process ≡ false
    → FormatAlike m m'
    → ce_format m no_update setting env t ≡ ce_format m' no_update setting env t
unfolding ce_format
ce_format-secret m m' no_update setting env t idle h =
    same_guard (is_empty (get_str (lit "name") m)) (is_empty (get_str (lit "name") m')) _ _ _ env t
      (ap is_empty h.visible.0)
      (same_guard (is_empty (get_str (lit "metaurl") m)) (is_empty (get_str (lit "metaurl") m')) _ _
        _ env t h.hidden.0
        (shown_text _ _ ce_cli_path (λ c. c) env t idle (λ c c' e. e)
          (add_options-SameText setting.format_options (format_command m no_update)
            (format_command m' no_update) (format-text m m' no_update h))))

-- Two maps of secrets that differ in the token, the secret keys and the passphrase alone.
pub record AuthAlike (m m' : GoMap Str) : Type 0 where
  pub visible : Agree m m' (lit "name" ∷ auth_keys)
  pub hidden : SameKeys m m' auth_stripped

auth-text :
    (m m' : GoMap Str) (no_update : Bool)
    → AuthAlike m m'
    → (no_update_command no_update (auth_command m (get_str (lit "name") m))).text
      ≡ (no_update_command no_update (auth_command m' (get_str (lit "name") m'))).text
unfolding auth_command no_update_command
auth-text m m' true h =
    rw
      (
        h.visible.0,
        shown-Agree m m' auth_keys h.visible.1,
        stripped-same m m' auth_stripped h.hidden,
      )
      refl
auth-text m m' false h =
    rw
      (
        h.visible.0,
        shown-Agree m m' auth_keys h.visible.1,
        stripped-same m m' auth_stripped h.hidden,
      )
      refl

when-same :
    (b : Bool) (m m' : M (Unit {0})) (env : Env) (t : Trace)
    → m env t ≡ m' env t
    → when b m env t ≡ when b m' env t
when-same true m m' env t h = h
when-same false m m' env t h = refl

prepare-same :
    (m m' : GoMap Str) (setting : JfsSetting) (env : Env) (t : Trace)
    → env.by_process ≡ false
    → is_empty (get_str (lit "bucket") m) ≡ is_empty (get_str (lit "bucket") m')
    → prepare_no_update m setting env t ≡ prepare_no_update m' setting env t
unfolding prepare_no_update
prepare-same m m' setting env t idle h =
    same_guard (is_empty (get_str (lit "bucket") m)) (is_empty (get_str (lit "bucket") m')) _ _ _
      env t h (rw idle refl)

conf-dir :
    (path : Str) (c c' : Command)
    → c.text ≡ c'.text
    → (add_conf_dir path c).text ≡ (add_conf_dir path c').text
conf-dir [] c c' h = h
conf-dir (b ∷ path) c c' h = ap (λ text. text ++ (lit "--conf-dir=" ++ b ∷ path) ∷ []) h

auth_with-secret :
    (no_update : Bool) (m m' : GoMap Str) (setting : JfsSetting) (env : Env) (t : Trace)
    → env.by_process ≡ false
    → AuthAlike m m'
    → auth_with no_update m setting false env t ≡ auth_with no_update m' setting false env t
unfolding auth_with
auth_with-secret no_update m m' setting env t idle h =
    shown_text _ _ cli_path (add_conf_dir setting.client_conf_path) env t idle
      (conf-dir setting.client_conf_path)
      (add_options-SameText setting.format_options _ _ (auth-text m m' no_update h))

auth_compatible-secret :
    (m m' : GoMap Str) (setting : JfsSetting) (env : Env) (t : Trace)
    → env.by_process ≡ false
    → AuthAlike m m'
    → auth_compatible m setting false env t ≡ auth_compatible m' setting false env t
unfolding auth_compatible
auth_compatible-secret m m' setting env t idle h =
    let no_update = is_enabled (env.lookup_env (lit "JFS_NO_UPDATE_CONFIG")) in
    ap (λ r. continue r (λ _. auth_with no_update m setting false) env)
      (when-same no_update (prepare_no_update m setting) (prepare_no_update m' setting) env t
        (prepare-same m m' setting env t idle (ap is_empty h.visible.1.1.1.0)))
    ∙ continue-same (when no_update (prepare_no_update m' setting) env t)
        (λ _. auth_with no_update m setting false) (λ _. auth_with no_update m' setting false) env
        (λ u t'. auth_with-secret no_update m m' setting env t' idle h)

-- The text of the command that authenticates does not depend on the token, the secret keys and the
-- passphrase, under their present names, where a mount pod is to run it.
pub auth_fs-secret :
    (m m' : GoMap Str) (setting : JfsSetting) (env : Env) (t : Trace)
    → env.by_process ≡ false
    → get_str (lit "name") m ≡ get_str (lit "name") m'
    → AuthAlike (compatible m) (compatible m')
    → auth_fs m setting false env t ≡ auth_fs m' setting false env t
unfolding auth_fs
auth_fs-secret m m' setting env t idle name h =
    same_guard (is_empty (get_str (lit "name") m)) (is_empty (get_str (lit "name") m')) _ _ _ env t
      (ap is_empty name)
      (auth_compatible-secret (compatible m) (compatible m') setting env t idle h)
