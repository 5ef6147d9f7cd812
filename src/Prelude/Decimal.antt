-- ===== src/Prelude/Decimal.antt =====
-- strconv.Atoi of Go's standard library, on 64 bits.
use Prim.Native.Nat.{ℕ, zero, suc, ◌+◌, ◌-◌, ◌*◌, ◌^◌}
use mathlib.Core.Bool.{Bool, false, ◌&&◌}
use mathlib.Core.Option.{Option, none, some}
use mathlib.Core.List.{[], ◌∷◌}
use juicedata_juicefs_csi_dr.Prelude.Tests.{◌==◌, if◌then◌else◌, ltb, leb}
use juicedata_juicefs_csi_dr.Prelude.Text.{Str}

pub data ℤ : Type 0 where
  pos negsuc : ℕ → ℤ

unfoldable pub int_eq : ℤ → ℤ → Bool
int_eq (pos m) (pos n) = m == n
int_eq (negsuc m) (negsuc n) = m == n
int_eq _ _ = false

abbrev pub is_digit : ℕ → Bool
is_digit c = leb b'0' c && leb c b'9'

-- The value of decimal digits behind those of `n`.
unfoldable pub digits_value : ℕ → Str → Option ℕ
digits_value n [] = some n
digits_value n (c ∷ s) =
    let rest = digits_value (n * 10 + (c - b'0')) s in if is_digit c then rest else none

abbrev nonempty_value : Str → Option ℕ
nonempty_value [] = none
nonempty_value (c ∷ s) = digits_value 0 (c ∷ s)

abbrev pub negate : ℕ → ℤ
negate zero = pos 0
negate (suc n) = negsuc n

abbrev within_int : Option ℕ → Option ℤ
within_int none = none
within_int (some n) = if ltb n (2 ^ 63) then some (pos n) else none

abbrev within_negative : Option ℕ → Option ℤ
within_negative none = none
within_negative (some n) = if leb n (2 ^ 63) then some (negate n) else none

unfoldable pub atoi : Str → Option ℤ
unfolding digits_value
atoi [] = none
atoi (c ∷ s) =
    if c == b'-'
    then within_negative (nonempty_value s)
    else if c == b'+'
    then within_int (nonempty_value s)
    else within_int (nonempty_value (c ∷ s))
