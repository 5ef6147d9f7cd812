-- ===== src/Juicefs/Provider/Options.antt =====
-- validOptions of pkg/juicefs/juicefs.go: the mount options of a volume.
use juicedata_juicefs_csi_dr.Prelude.{
  ℕ, Option, none, some, List, [], ◌∷◌, ◌++◌, Str, lit, str_eq, split, trim_space, is_empty,
  get_str, ltb, GoMap, if◌then◌else◌,
}
use juicedata_juicefs_csi_dr.Util.Sizes.{Scale, parse_to_bytes}
use juicedata_juicefs_csi_dr.Kube.{Result, ok, err, diverged, other}

-- Libraries: the value of a quantity, as an unsigned word, and decimal numbers.
pub record Sizes : Type 0 where
  pub quantity_value : Str → Option ℕ
  pub scale : Scale

unfoldable pub memory_limit : GoMap Str → Str
memory_limit vol_ctx =
    if is_empty (get_str (lit "juicefs/mount-memory-limit") vol_ctx)
    then lit "5Gi"
    else get_str (lit "juicefs/mount-memory-limit") vol_ctx

abbrev pub within : Option ℕ → Option ℕ → Str → Result Str
within none size option = err (other "invalid memory limit")
within (some limit) none option = err (other "invalid mount option")
within (some limit) (some size) option =
    if ltb limit size then err (other "buffer-size is greater than pod memory limit") else ok option

-- The parts of an option around `=`. Only the whole option was trimmed, so that the key may end in
-- a space.
unfoldable pub valid_parts : Sizes → GoMap Str → Str → List Str → Result Str
unfolding memory_limit trim_space parse_to_bytes
valid_parts sizes vol_ctx option [] = ok option
valid_parts sizes vol_ctx option (k ∷ []) = ok option
valid_parts sizes vol_ctx option (k ∷ v ∷ []) =
    let trimmed = trim_space k ++ (b'=' ∷ trim_space v) in
    if str_eq k (lit "buffer-size")
    then within (sizes.quantity_value (memory_limit vol_ctx)) (parse_to_bytes sizes.scale v) trimmed
    else ok trimmed
valid_parts sizes vol_ctx option (k ∷ v ∷ w ∷ rest) = err (other "invalid mount option")

unfoldable pub valid_option : Sizes → GoMap Str → Str → Result Str
unfolding valid_parts trim_space split
valid_option sizes vol_ctx option =
    valid_parts sizes vol_ctx (trim_space option) (split (trim_space option) (lit "="))

abbrev pub add_option : Result Str → Result (List Str) → Result (List Str)
add_option (ok o) (ok os) = ok (o ∷ os)
add_option (ok o) r = r
add_option (err e) r = err e
add_option diverged r = diverged

unfoldable pub valid_options : Sizes → GoMap Str → List Str → Result (List Str)
unfolding valid_option
valid_options sizes vol_ctx [] = ok []
valid_options sizes vol_ctx (option ∷ options) =
    add_option (valid_option sizes vol_ctx option) (valid_options sizes vol_ctx options)
