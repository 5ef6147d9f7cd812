-- ===== src/Config/FormatOptions.antt =====
-- The format options of pkg/config/setting.go: ParseFormatOptions, RepresentFormatOptions and
-- StripFormatOptions.
use juicedata_juicefs_csi_dr.Prelude.{
  ℕ, ◌==◌, List, [], ◌∷◌, ◌++◌, Str, lit, split, trim_space, is_empty, contains_string,
  if◌then◌else◌,
}
use juicedata_juicefs_csi_dr.Kube.{Result, ok, err, diverged, other}
use juicedata_juicefs_csi_dr.Util.Escape.{escape_bash_str}

abbrev cons_key : ℕ → List Str → List Str
cons_key c [] = []
cons_key c (k ∷ rest) = (c ∷ k) ∷ rest

-- strings.SplitN(s, "=", 2)
unfoldable pub split_pair : Str → List Str
split_pair [] = [] ∷ []
split_pair (c ∷ s) = let rest = split_pair s in if c == b'=' then [] ∷ s ∷ [] else cons_key c rest

-- The option of a pair, if it has a key; an empty value behind `=` is an error.
unfoldable pub parse_pair : List Str → Result (List (Str × Str))
unfolding trim_space
parse_pair (k ∷ v ∷ []) =
    if is_empty v
    then err (other "invalid format options")
    else if is_empty (trim_space k)
    then ok []
    else ok ((trim_space k, trim_space v) ∷ [])
parse_pair (k ∷ []) = if is_empty (trim_space k) then ok [] else ok ((trim_space k, []) ∷ [])
parse_pair _ = ok []

abbrev append_parsed :
    Result (List (Str × Str)) → Result (List (Str × Str)) → Result (List (Str × Str))
append_parsed (ok ps) (ok qs) = ok (ps ++ qs)
append_parsed (ok ps) r = r
append_parsed (err e) r = err e
append_parsed diverged r = diverged

unfoldable pub parse_options : List Str → Result (List (Str × Str))
unfolding parse_pair split_pair trim_space
parse_options [] = ok []
parse_options (option ∷ options) =
    append_parsed (parse_pair (split_pair (trim_space option))) (parse_options options)

unfoldable pub parse_format_options : Str → Result (List (Str × Str))
unfolding parse_options split
parse_format_options format_options = parse_options (split format_options (lit ","))

unfoldable pub represent_format_options : List (Str × Str) → List Str
unfolding escape_bash_str
represent_format_options [] = []
represent_format_options ((k, v) ∷ pairs) =
    (lit "--"
      ++ (if is_empty v
          then escape_bash_str k
          else escape_bash_str k ++ (lit "=" ++ escape_bash_str v)))
    ∷ represent_format_options pairs

-- The value of a stripped key is taken from a variable of the key's name.
unfoldable pub strip_pair : List Str → Str → Str → Str
unfolding escape_bash_str contains_string
strip_pair stripped k v =
    if is_empty v
    then escape_bash_str k
    else if contains_string stripped k
    then escape_bash_str k ++ (lit "=${" ++ (k ++ lit "}"))
    else escape_bash_str k ++ (lit "=" ++ escape_bash_str v)

unfoldable pub strip_format_options : List (Str × Str) → List Str → List Str
unfolding strip_pair
strip_format_options [] stripped = []
strip_format_options ((k, v) ∷ pairs) stripped =
    (lit "--" ++ strip_pair stripped k v) ∷ strip_format_options pairs stripped
