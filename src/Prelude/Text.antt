-- ===== src/Prelude/Text.antt =====
-- Go strings as lists of bytes, and the functions of package `strings` that the program uses.
use Prim.Native.Nat.{ℕ, zero, suc, ◌-◌}
use Prim.Native.Char.{code}
use Prim.Native.String.{String}
use mathlib.Core.Path.{◌≡◌, refl}
use mathlib.Core.Logic.{◌↔◌}
use mathlib.Core.Bool.{Bool, true, false, ◌&&◌, ◌||◌}
use mathlib.Core.Option
use mathlib.Core.Option.{Option, none, some}
use mathlib.Core.List.{List, [], ◌∷◌, reverse}
use native.Mathlib.Omega.{arith}
use juicedata_juicefs_csi_dr.Prelude.Tests.{◌==◌, if◌then◌else◌, is_some}
use juicedata_juicefs_csi_dr.Prelude.Lists.{length}

abbrev pub Str : Type 0
Str = List ℕ

-- The bytes of an ASCII literal. `String` has its own `[]` and `∷`.
abbrev pub lit : String → Str
lit String.[] = []
lit (String.◌∷◌ c s) = code c ∷ lit s

unfoldable pub str_eq : Str → Str → Bool
str_eq [] [] = true
str_eq (a ∷ s) (b ∷ t) = a == b && str_eq s t
str_eq _ _ = false

pub str_eq_refl : (s : Str) → str_eq s s ≡ true
unfolding str_eq
str_eq_refl [] = refl
str_eq_refl (a ∷ s) = ground (arith, str_eq_refl s)

pub str_eq→eq : (s t : Str) → str_eq s t ≡ true → s ≡ t
unfolding str_eq
str_eq→eq [] [] h = refl
str_eq→eq [] (b ∷ t) h = ground arith
str_eq→eq (a ∷ s) [] h = ground arith
str_eq→eq (a ∷ s) (b ∷ t) h = ground (arith, str_eq→eq s t)

pub str_eq_iff : (s t : Str) → (str_eq s t ≡ true) ↔ (s ≡ t)
str_eq_iff s t = (str_eq→eq s t, λ e. ground (arith, str_eq_refl s))

pub str_eq_comm : (s t : Str) → str_eq s t ≡ str_eq t s
str_eq_comm s t = ground (arith, str_eq_iff s t, str_eq_iff t s)

-- strings.HasPrefix(s, p)
unfoldable pub has_prefix : Str → Str → Bool
has_prefix s [] = true
has_prefix [] (b ∷ p) = false
has_prefix (a ∷ s) (b ∷ p) = a == b && has_prefix s p

-- strings.Index(s, sub); `none` is -1.
unfoldable pub index : Str → Str → Option ℕ
unfolding has_prefix
index [] sub = if has_prefix [] sub then some 0 else none
index (a ∷ s) sub =
    let rest = Option.map suc (index s sub) in if has_prefix (a ∷ s) sub then some 0 else rest

-- strings.Contains(s, sub)
unfoldable pub contains : Str → Str → Bool
unfolding index
contains s sub = is_some (index s sub)

unfoldable pub cons_head : ℕ → List Str → List Str
cons_head c [] = (c ∷ []) ∷ []
cons_head c (w ∷ ws) = (c ∷ w) ∷ ws

-- The bytes of a separator that was met are skipped.
unfoldable pub split_skip : ℕ → Str → Str → List Str
unfolding has_prefix cons_head
split_skip skip [] sep = [] ∷ []
split_skip (suc k) (c ∷ s) sep = split_skip k s sep
split_skip zero (c ∷ s) sep =
    let hit = has_prefix (c ∷ s) sep in
    let rest = split_skip (if hit then length sep - 1 else 0) s sep in
    if hit then [] ∷ rest else cons_head c rest

-- strings.Split(s, sep), for a separator that is not empty.
unfoldable pub split : Str → Str → List Str
unfolding split_skip
split s sep = split_skip 0 s sep

-- strings.TrimPrefix(s, p)
unfoldable pub trim_prefix : Str → Str → Str
trim_prefix s [] = s
trim_prefix [] (b ∷ p) = []
trim_prefix (a ∷ s) (b ∷ p) =
    let rest = trim_prefix s p in if a == b && has_prefix s p then rest else a ∷ s

-- strings.TrimSuffix(s, p)
unfoldable pub trim_suffix : Str → Str → Str
unfolding trim_prefix has_prefix
trim_suffix s p = reverse (trim_prefix (reverse s) (reverse p))

-- The rest after the first bytes that are equal to `c`; strings.TrimLeft(s, string(c)).
unfoldable pub trim_left : ℕ → Str → Str
trim_left c [] = []
trim_left c (a ∷ s) = let rest = trim_left c s in if a == c then rest else a ∷ s

-- strings.Trim(s, string(c))
unfoldable pub trim : ℕ → Str → Str
unfolding trim_left
trim c s = reverse (trim_left c (reverse (trim_left c s)))

-- strings.LastIndex(s, string(c)); `none` is -1.
unfoldable pub last_index : Str → ℕ → Option ℕ
last_index [] c = none
last_index (a ∷ s) c = elim (last_index s c) [
  | some i ↦ some (suc i)
  | none ↦ if a == c then some 0 else none
]

unfoldable pub contains_string : List Str → Str → Bool
contains_string [] s = false
contains_string (item ∷ slice) s = str_eq item s || contains_string slice s
