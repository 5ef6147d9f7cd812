-- ===== src/Examples/Commands.antt =====
-- The commands of the clients and their options at concrete inputs.
use juicedata_juicefs_csi_dr.Prelude.{
  ◌≡◌, refl, true, false, some, List, [], ◌∷◌, ◌++◌, lit, Str, GoMap, split, trim_space, str_eq,
  length, lookup, ◌*◌, ◌^◌,
}
use juicedata_juicefs_csi_dr.Kube.{ok}
use juicedata_juicefs_csi_dr.Util.Escape.{contains_one, metacharacters, escape_bash_str}
use juicedata_juicefs_csi_dr.Util.Escape.Quoting.{ansi_c, ansi_c-escape_bash_str}
use juicedata_juicefs_csi_dr.Juicefs.Provider.Commands.{ce_format, auth_fs, compatible, rename_key}
use juicedata_juicefs_csi_dr.Juicefs.Provider.Secrecy.{
  FormatAlike, AuthAlike, ce_format-secret, auth_fs-secret,
}
use juicedata_juicefs_csi_dr.Juicefs.Provider.Options.{
  Sizes, valid_option, valid_options, valid_parts,
}
use juicedata_juicefs_csi_dr.Juicefs.Provider.Limits.{IsWithin, valid_options-IsWithin}
use juicedata_juicefs_csi_dr.Examples.World.{empty_world, example_setting}

has_dollar : contains_one (lit "it's $5") metacharacters ≡ true
unfolding contains_one
has_dollar = refl

ansi_c-escape_bash_str_example : ansi_c (escape_bash_str (lit "it's $5")) ≡ some (lit "it's $5")
ansi_c-escape_bash_str_example = ansi_c-escape_bash_str (lit "it's $5") has_dollar

-- Two file systems whose secrets alone differ.
abbrev with_secret : Str → GoMap Str
with_secret s =
    (lit "name", lit "fs")
    ∷ (lit "metaurl", lit "redis://:" ++ s)
    ∷ (lit "token", lit "t-" ++ s)
    ∷ (lit "bucket", lit "b")
    ∷ (lit "secret-key", lit "k-" ++ s)
    ∷ []

abbrev mine : GoMap Str
mine = with_secret (lit "mine")

abbrev yours : GoMap Str
yours = with_secret (lit "yours")

format_alike : FormatAlike mine yours
unfolding lookup str_eq
format_alike = record {
  visible = (refl, (refl, (refl, (refl, (refl, (refl, (refl, (refl, (refl, (refl, tt))))))))));
  hidden = (refl, (refl, tt));
}

ce_format-secret_example :
    ce_format mine false example_setting empty_world []
    ≡ ce_format yours false example_setting empty_world []
ce_format-secret_example =
    ce_format-secret mine yours false example_setting empty_world [] refl format_alike

auth_alike : AuthAlike (compatible mine) (compatible yours)
unfolding compatible rename_key lookup str_eq
auth_alike = record {
  visible = (refl, (refl, (refl, (refl, (refl, (refl, tt))))));
  hidden = (refl, (refl, (refl, (refl, tt))));
}

auth_fs-secret_example :
    auth_fs mine example_setting false empty_world []
    ≡ auth_fs yours example_setting false empty_world []
unfolding lookup str_eq
auth_fs-secret_example =
    auth_fs-secret mine yours example_setting empty_world [] refl refl auth_alike

-- Every quantity is 400 units of 2 ^ 20 bytes, and a number is as many units as it has bytes.
abbrev pub some_units : Sizes
some_units = record {
  quantity_value = λ s. some (400 * 2 ^ 20);
  scale = λ s. some (λ shift. length s * 2 ^ shift);
}

abbrev small_buffer : List Str
small_buffer = lit "ro" ∷ lit " buffer-size=300 " ∷ []

small_accepted :
    valid_options some_units [] small_buffer ≡ ok (lit "ro" ∷ lit "buffer-size=300" ∷ [])
unfolding valid_options valid_option valid_parts trim_space split str_eq
small_accepted = refl

small_split :
    split (trim_space (lit " buffer-size=300 ")) (lit "=") ≡ lit "buffer-size" ∷ lit "300" ∷ []
unfolding trim_space split
small_split = refl

valid_options-IsWithin_example : IsWithin some_units [] (lit "300")
valid_options-IsWithin_example =
    valid_options-IsWithin some_units [] small_buffer (lit "ro" ∷ lit "buffer-size=300" ∷ []) 1
      (lit " buffer-size=300 ") (lit "300") small_accepted refl small_split
