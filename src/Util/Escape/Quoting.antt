-- ===== src/Util/Escape/Quoting.antt =====
-- EscapeBashStr of pkg/util/security/escape.go against the ANSI-C quoting of the shell.
use juicedata_juicefs_csi_dr.Prelude.{
  ℕ, ◌≡◌, refl, Bool, true, false, [], ◌∷◌, ◌++◌, Str, lit, ◌==◌, Option, none, some, replace_all,
  if◌then◌else◌, arith,
}
use juicedata_juicefs_csi_dr.Util.Escape.{contains_one, metacharacters, escape_bash_str}

-- The byte that stands for a quote or a backslash behind a backslash.
abbrev reveal : ℕ → Option ℕ
reveal c = if c == b'\\' then some b'\\' else if c == b'\'' then some b'\'' else none

abbrev put : ℕ → Option Str → Option Str
put c none = none
put c (some s) = some (c ∷ s)

abbrev put_revealed : Option ℕ → Option Str → Option Str
put_revealed none s = none
put_revealed (some c) s = put c s

abbrev ends : Str → Option Str
ends [] = some []
ends (c ∷ s) = none

-- What the shell reads of a word that is quoted up to its end; the flag says that a backslash
-- stands before. Other escapes than those of a quote and of a backslash are not read.
unfoldable pub quoted : Bool → Str → Option Str
quoted pending [] = none
quoted true (c ∷ s) = put_revealed (reveal c) (quoted false s)
quoted false (c ∷ s) =
    let later = quoted (c == b'\\') s in
    if c == b'\\' then later else if c == b'\'' then ends s else put c later

-- A word of the form $'...'.
unfoldable pub ansi_c : Str → Option Str
unfolding quoted
ansi_c [] = none
ansi_c (c ∷ []) = none
ansi_c (c ∷ d ∷ s) = if c == b'$' then (if d == b'\'' then quoted false s else none) else none

-- The escape of a byte.
abbrev hide : ℕ → Str
hide c =
    if c == b'\\' then b'\\' ∷ b'\\' ∷ [] else if c == b'\'' then b'\\' ∷ b'\'' ∷ [] else c ∷ []

hidden : Str → Str
hidden [] = []
hidden (c ∷ s) = hide c ++ hidden s

replace-hidden :
    (s : Str) → replace_all (replace_all s (lit "\\") (lit "\\\\")) (lit "'") (lit "\\'") ≡ hidden s
unfolding replace_all hidden
replace-hidden [] = refl
replace-hidden (c ∷ s) = ground (arith, replace-hidden s)

quoted-hidden : (s : Str) → quoted false (hidden s ++ lit "'") ≡ some s
unfolding quoted hidden
quoted-hidden [] = refl
quoted-hidden (c ∷ s) = ground (arith, quoted-hidden s)

-- A text with a metacharacter is read back from its escape by the ANSI-C quoting of the shell.
pub ansi_c-escape_bash_str :
    (s : Str) → contains_one s metacharacters ≡ true → ansi_c (escape_bash_str s) ≡ some s
unfolding ansi_c escape_bash_str
ansi_c-escape_bash_str s h = rw (h, replace-hidden s) (quoted-hidden s)
