-- ===== src/Prelude/Paths.antt =====
-- path.Join and strconv.FormatInt of Go's standard library.
use Prim.Native.Nat.{ℕ, zero, suc, ◌+◌, ◌/◌, ◌%◌}
use mathlib.Core.Path.{◌≡◌, refl}
use mathlib.Core.Bool.{Bool, true, false, ◌||◌}
use mathlib.Core.Option.{none, some}
use mathlib.Core.List.{List, [], ◌∷◌, ◌++◌, reverse}
use juicedata_juicefs_csi_dr.Prelude.Tests.{if◌then◌else◌, ltb}
use juicedata_juicefs_csi_dr.Prelude.Lists.{is_empty, take, drop}
use juicedata_juicefs_csi_dr.Prelude.Text.{
  Str, lit, str_eq, split, has_prefix, trim_left, last_index,
}

-- The decimal digits of `n` before `acc`. Each round divides by ten, so `n` rounds are enough.
unfoldable pub digits : ℕ → ℕ → Str → Str
digits zero n acc = acc
digits (suc fuel) n acc = elim (ltb n 10) [
  | true ↦ (48 + n) ∷ acc
  | false ↦ digits fuel (n / 10) ((48 + n % 10) ∷ acc)
]

unfoldable pub format_int : ℕ → Str
unfolding digits
format_int n = digits (suc n) n []

-- The components of a path, the last one first; `..` takes one away, if one can be.
unfoldable pub push_component : Bool → Str → List Str → List Str
push_component rooted c stack =
    if is_empty c || str_eq c (lit ".")
    then stack
    else if str_eq c (lit "..")
    then elim stack [
      | [] ↦ if rooted then [] else c ∷ []
      | top ∷ rest ↦ if str_eq top (lit "..") then c ∷ top ∷ rest else rest
    ]
    else c ∷ stack

unfoldable pub clean_components : Bool → List Str → List Str → List Str
unfolding push_component
clean_components rooted [] stack = stack
clean_components rooted (c ∷ cs) stack = clean_components rooted cs (push_component rooted c stack)

unfoldable pub join_components : List Str → Str
join_components [] = []
join_components (c ∷ cs) = elim cs [ [] ↦ c | d ∷ ds ↦ c ++ (lit "/" ++ join_components cs) ]

abbrev or_dot : Str → Str
or_dot [] = lit "."
or_dot (c ∷ s) = c ∷ s

-- path.Clean
unfoldable pub path_clean : Str → Str
unfolding clean_components join_components has_prefix split str_eq
path_clean s =
    let rooted = has_prefix s (lit "/") in
    let body = join_components (reverse (clean_components rooted (split s (lit "/")) [])) in
    if rooted then lit "/" ++ body else or_dot body

unfoldable pub join_nonempty : List Str → Str
join_nonempty [] = []
join_nonempty (c ∷ cs) =
    let rest = join_nonempty cs in
    if is_empty c then rest else if is_empty rest then c else c ++ (lit "/" ++ rest)

abbrev clean_nonempty : Str → Str
clean_nonempty [] = []
clean_nonempty (c ∷ s) = path_clean (c ∷ s)

-- path.Join
unfoldable pub path_join : List Str → Str
unfolding path_clean join_nonempty
path_join elements = clean_nonempty (join_nonempty elements)

path_join_test : path_join (lit "/" ∷ lit "a/./b//../c" ∷ []) ≡ lit "/a/c"
unfolding path_join
path_join_test = refl

-- path.Dir and path.Base
unfoldable pub path_dir : Str → Str
unfolding path_clean last_index
path_dir s = elim (last_index s b'/') [ none ↦ lit "." | some i ↦ path_clean (take (suc i) s) ]

abbrev or_root : Str → Str
or_root [] = lit "/"
or_root (c ∷ s) = c ∷ s

unfoldable pub path_base : Str → Str
unfolding trim_left last_index
path_base s =
    let bare = reverse (trim_left b'/' (reverse s)) in
    if is_empty s
    then lit "."
    else elim (last_index bare b'/') [ none ↦ or_root bare | some i ↦ drop (suc i) bare ]

format_int_test : format_int 10203 ≡ lit "10203"
unfolding format_int
format_int_test = refl
