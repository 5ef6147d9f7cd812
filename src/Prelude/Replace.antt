-- ===== src/Prelude/Replace.antt =====
-- More functions of packages `strings` and `os`: ReplaceAll, Join, TrimSpace and Expand.
use Prim.Native.Nat.{ℕ, zero, suc, ◌-◌, ◌+◌}
use mathlib.Core.Path.{◌≡◌, refl}
use mathlib.Core.Bool.{Bool, ◌&&◌, ◌||◌}
use mathlib.Core.Option.{Option, none, some}
use mathlib.Core.List.{List, [], ◌∷◌, ◌++◌, reverse}
use juicedata_juicefs_csi_dr.Prelude.Tests.{◌==◌, leb, if◌then◌else◌}
use juicedata_juicefs_csi_dr.Prelude.Lists.{length, any}
use juicedata_juicefs_csi_dr.Prelude.Text.{Str, has_prefix, lit}

-- The bytes of a text that was met are skipped.
unfoldable pub replace_skip : ℕ → Str → Str → Str → Str
unfolding has_prefix
replace_skip skip [] old new = []
replace_skip (suc k) (c ∷ s) old new = replace_skip k s old new
replace_skip zero (c ∷ s) old new =
    let hit = has_prefix (c ∷ s) old in
    let rest = replace_skip (if hit then length old - 1 else 0) s old new in
    if hit then new ++ rest else c ∷ rest

-- strings.ReplaceAll(s, old, new), for an `old` that is not empty.
unfoldable pub replace_all : Str → Str → Str → Str
unfolding replace_skip
replace_all s old new = replace_skip 0 s old new

-- strings.Join(parts, sep)
unfoldable pub join : List Str → Str → Str
join [] sep = []
join (p ∷ []) sep = p
join (p ∷ q ∷ ps) sep = p ++ (sep ++ join (q ∷ ps) sep)

-- White space of ASCII.
abbrev pub is_space : ℕ → Bool
is_space c = (leb 9 c && leb c 13) || c == 32

unfoldable pub trim_spaces_left : Str → Str
trim_spaces_left [] = []
trim_spaces_left (c ∷ s) = let rest = trim_spaces_left s in if is_space c then rest else c ∷ s

-- strings.TrimSpace(s)
unfoldable pub trim_space : Str → Str
unfolding trim_spaces_left
trim_space s = reverse (trim_spaces_left (reverse (trim_spaces_left s)))

-- The bytes before the first `}`.
unfoldable pub until_brace : Str → Option Str
until_brace [] = none
until_brace (c ∷ s) =
    if c == b'}'
    then some []
    else elim (until_brace s) [ none ↦ none | some name ↦ some (c ∷ name) ]

abbrev is_special : ℕ → Bool
is_special c =
    any (λ d. c == d) (b'*' ∷ b'#' ∷ b'$' ∷ b'@' ∷ b'!' ∷ b'?' ∷ b'-' ∷ [])
    || (leb b'0' c && leb c b'9')

abbrev is_alpha_num : ℕ → Bool
is_alpha_num c =
    c == b'_'
    || ((leb b'0' c && leb c b'9') || ((leb b'a' c && leb c b'z') || (leb b'A' c && leb c b'Z')))

unfoldable pub name_of : Str → Str
name_of [] = []
name_of (c ∷ s) = let rest = name_of s in if is_alpha_num c then c ∷ rest else []

-- getShellName of package os, behind `{`: the name of a variable and how much of the text it takes.
unfoldable pub braced_name : Str → Str × ℕ
unfolding until_brace any
braced_name s = elim (until_brace s) [
  | none ↦ ([], 1)
  | some [] ↦ ([], 2)
  | some (c ∷ name) ↦ (c ∷ name, length name + 3)
]

-- getShellName(s), for a text that is not empty.
unfoldable pub shell_name : Str → Str × ℕ
unfolding braced_name name_of any
shell_name [] = ([], 0)
shell_name (c ∷ s) =
    if c == b'{'
    then braced_name s
    else if is_special c
    then (c ∷ [], 1)
    else (name_of (c ∷ s), length (name_of (c ∷ s)))

abbrev pub substitute : (Str → Str) → Str × ℕ → Str
substitute mapping ([], zero) = b'$' ∷ []
substitute mapping ([], suc w) = []
substitute mapping (c ∷ name, w) = mapping (c ∷ name)

-- What stands for a byte of the text, and how many bytes behind it are used up.
unfoldable pub expansion : (Str → Str) → ℕ → Str → Str × ℕ
unfolding shell_name
expansion mapping c [] = (c ∷ [], 0)
expansion mapping c (d ∷ s) =
    if c == b'$'
    then (substitute mapping (shell_name (d ∷ s)), (shell_name (d ∷ s)).1)
    else (c ∷ [], 0)

unfoldable pub expand_skip : (Str → Str) → ℕ → Str → Str
unfolding expansion
expand_skip mapping skip [] = []
expand_skip mapping (suc k) (c ∷ s) = expand_skip mapping k s
expand_skip mapping zero (c ∷ s) =
    (expansion mapping c s).0 ++ expand_skip mapping (expansion mapping c s).1 s

-- os.Expand(s, mapping)
unfoldable pub expand : Str → (Str → Str) → Str
unfolding expand_skip
expand s mapping = expand_skip mapping 0 s

expand_test :
    expand (lit "a${x.y}$z-$$${}$") (λ name. b'<' ∷ (name ++ b'>' ∷ [])) ≡ lit "a<x.y><z>-<$>$"
unfolding expand any
expand_test = refl

replace_test : replace_all (lit "aXbXXc") (lit "X") (lit "YX") ≡ lit "aYXbYXYXc"
unfolding replace_all
replace_test = refl

trim_test : trim_space (lit "  a b ") ≡ lit "a b"
unfolding trim_space
trim_test = refl
