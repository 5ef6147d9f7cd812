-- ===== src/Util/Sizes.antt =====
-- ParseToBytes of pkg/util/util.go: sizes with a unit.
use juicedata_juicefs_csi_dr.Prelude.{
  ℕ, Bool, ◌||◌, ◌==◌, ltb, Option, none, some, [], ◌∷◌, Str, if◌then◌else◌,
}

-- The text before its last byte, and that byte.
unfoldable pub split_last : ℕ → Str → Str × ℕ
split_last c [] = ([], c)
split_last c (d ∷ s) = let (before, last) = split_last d s in (c ∷ before, last)

abbrev either : ℕ → ℕ → ℕ → Bool
either lower upper c = c == lower || c == upper

-- The power of two that a unit is.
unfoldable pub shift_of : ℕ → Option ℕ
shift_of c =
    if either b'k' b'K' c
    then some 10
    else if either b'm' b'M' c
    then some 20
    else if either b'g' b'G' c
    then some 30
    else if either b't' b'T' c
    then some 40
    else if either b'p' b'P' c
    then some 50
    else if either b'e' b'E' c
    then some 60
    else none

-- A library: the product of a decimal number, if the text is one, and a power of two, as a word.
abbrev pub Scale : Type 0
Scale = Str → Option (ℕ → ℕ)

abbrev scaled : Option (ℕ → ℕ) → Option ℕ → Option ℕ
scaled none shift = none
scaled (some times) none = none
scaled (some times) (some shift) = some (times shift)

-- The number and its unit, which is M by default.
unfoldable pub number_and_unit : Str → Str × ℕ → Str × ℕ
number_and_unit value (before, last) =
    if ltb last b'0' || ltb b'9' last then (before, last) else (value, b'M')

unfoldable pub parse_to_bytes : Scale → Str → Option ℕ
unfolding number_and_unit split_last shift_of
parse_to_bytes scale [] = some 0
parse_to_bytes scale (c ∷ s) =
    let (number, unit) = number_and_unit (c ∷ s) (split_last c s) in
    scaled (scale number) (shift_of unit)
