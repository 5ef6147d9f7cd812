-- ===== src/Util/Escape.antt =====
-- pkg/util/security/escape.go: the quoting of a text for a shell.
pub mod Quoting
use juicedata_juicefs_csi_dr.Prelude.{
  ℕ, Bool, List, [], ◌∷◌, ◌++◌, Str, lit, any, ◌==◌, not, replace_all, if◌then◌else◌,
}

-- The bytes of ASCII stand for themselves among the runes of a text.
unfoldable pub contains_one : Str → List ℕ → Bool
unfolding any
contains_one target chars = any (λ c. any (λ d. c == d) chars) target

abbrev pub metacharacters : List ℕ
metacharacters = lit "$`&;>|()"

unfoldable pub escape_bash_str : Str → Str
unfolding contains_one replace_all
escape_bash_str s =
    if not (contains_one s metacharacters)
    then s
    else lit "$'"
      ++ (replace_all (replace_all s (lit "\\") (lit "\\\\")) (lit "'") (lit "\\'") ++ lit "'")
