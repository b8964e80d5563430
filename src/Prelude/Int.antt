-- ===== src/Prelude/Int.antt =====
-- Signed integers over the native numbers, and strconv.ParseInt.
use Prim.Native.Nat.{ℕ, ◌+◌, ◌-◌, ◌*◌, ◌%◌, ◌^◌, ◌<◌}
use mathlib.Core.Path.{◌≡◌}
use mathlib.Core.Bool.{Bool, true, false, ◌&&◌}
use mathlib.Core.List.{[], ◌∷◌}
use mathlib.Core.Option.{Option, none, some}
use native.Mathlib.Omega.{arith}
use k3c.Prelude.Tests.{ltb, leb, eqb, if◌then◌else◌}
use k3c.Prelude.Text.{Text}

-- `negsuc n` is -(n + 1).
pub data ℤ : Type 0 where
  pos : ℕ → ℤ
  negsuc : ℕ → ℤ

-- Whether a < b.
abbrev pub lt : ℤ → ℤ → Bool
lt (pos a) (pos b) = ltb a b
lt (pos a) (negsuc b) = false
lt (negsuc a) (pos b) = true
lt (negsuc a) (negsuc b) = ltb b a

abbrev pub is_zero : ℤ → Bool
is_zero (pos n) = eqb n 0
is_zero (negsuc n) = false

abbrev pub is_positive : ℤ → Bool
is_positive (pos n) = ltb 0 n
is_positive (negsuc n) = false

-- The decimal digits of a text, most significant first; `none` at any other byte.
unfoldable pub digits : ℕ → Text → Option ℕ
digits n [] = some n
digits n (c ∷ s) =
    let rest = digits (n * 10 + (c - b'0')) s in if leb b'0' c && leb c b'9' then rest else none

abbrev unsigned : Text → Option ℕ
unsigned [] = none
unsigned (c ∷ s) = digits 0 (c ∷ s)

abbrev positive : Option ℕ → Option ℤ
positive none = none
positive (some n) = if ltb n (2 ^ 63) then some (pos n) else none

abbrev negative : Option ℕ → Option ℤ
negative none = none
negative (some n) =
    if eqb n 0 then some (pos 0) else if leb n (2 ^ 63) then some (negsuc (n - 1)) else none

-- strconv.ParseInt(s, 10, 64): an optional sign, then digits, within the range of int64.
unfoldable pub parse_int : Text → Option ℤ
unfolding digits
parse_int [] = none
parse_int (c ∷ s) =
    if eqb c b'+'
    then positive (unsigned s)
    else if eqb c b'-'
    then negative (unsigned s)
    else positive (unsigned (c ∷ s))

-- The 32 low bits, read as a two's complement number: Go's int32(x).
unfoldable pub signed_32 : ℕ → ℤ
signed_32 m = if ltb m (2 ^ 31) then pos m else negsuc (2 ^ 32 - 1 - m)

unfoldable pub to_int32 : ℤ → ℤ
unfolding signed_32
to_int32 (pos n) = signed_32 (n % 2 ^ 32)
to_int32 (negsuc n) = signed_32 (2 ^ 32 - 1 - n % 2 ^ 32)

-- Within the range of int32.
abbrev pub FitsInt32 : ℤ → Type 0
FitsInt32 (pos n) = n < 2 ^ 31
FitsInt32 (negsuc n) = n < 2 ^ 31

pub to_int32_fits : (x : ℤ) → FitsInt32 x → to_int32 x ≡ x
unfolding to_int32
to_int32_fits (pos n) h = ground arith
to_int32_fits (negsuc n) h = ground arith

-- The 64 low bits: Go's int64.
unfoldable pub signed_64 : ℕ → ℤ
signed_64 m = if ltb m (2 ^ 63) then pos m else negsuc (2 ^ 64 - 1 - m)

unfoldable pub to_int64 : ℤ → ℤ
unfolding signed_64
to_int64 (pos n) = signed_64 (n % 2 ^ 64)
to_int64 (negsuc n) = signed_64 (2 ^ 64 - 1 - n % 2 ^ 64)

abbrev pub FitsInt64 : ℤ → Type 0
FitsInt64 (pos n) = n < 2 ^ 63
FitsInt64 (negsuc n) = n < 2 ^ 63

pub to_int64_fits : (x : ℤ) → FitsInt64 x → to_int64 x ≡ x
unfolding to_int64
to_int64_fits (pos n) h = ground arith
to_int64_fits (negsuc n) h = ground arith
