-- ===== src/Prelude/Decimal.antt =====
-- strconv.Itoa for numbers that are not negative, and that parsing reads it back.
use Prim.Native.Nat.{ℕ, zero, suc, ◌+◌, ◌/◌, ◌%◌, ◌^◌, ◌<◌}
use mathlib.Core.Path.{◌≡◌, refl, ◌∙◌}
use mathlib.Core.Logic.{◌⊎◌, inl, inr}
use mathlib.Core.Bool.{false}
use mathlib.Core.List.{[], ◌∷◌}
use mathlib.Core.Option.{some}
use native.Mathlib.Omega.{arith}
use k3c.Prelude.Tests.{ltb, if◌then◌else◌, Bool-cases}
use k3c.Prelude.Text.{Text, contains}
use k3c.Prelude.Int.{pos, digits, parse_int}

-- The digits of `n` in front of `rest`, with fuel for one round a digit.
show_loop : ℕ → ℕ → Text → Text
show_loop zero n rest = rest
show_loop (suc f) n rest =
    let more = show_loop f (n / 10) ((b'0' + n % 10) ∷ rest) in
    if ltb n 10 then (b'0' + n) ∷ rest else more

unfoldable pub itoa : ℕ → Text
unfolding show_loop
itoa n = show_loop (suc n) n []

digits-show_loop : (f n : ℕ) (rest : Text) → n < f → digits 0 (show_loop f n rest) ≡ digits n rest
unfolding show_loop digits
digits-show_loop zero n rest h = elim h [ ]
digits-show_loop (suc f) n rest h = elim (Bool-cases (ltb n 10)) [
  | inl small ↦ rw small (ground arith)
  | inr large ↦
      rw large (digits-show_loop f (n / 10) ((b'0' + n % 10) ∷ rest) (ground arith) ∙ ground arith)
]

pub digits-itoa : (n : ℕ) → digits 0 (itoa n) ≡ some n
unfolding itoa digits
digits-itoa n = digits-show_loop (suc n) n [] (omega arith)

-- The first byte is a digit.
abbrev pub StartsWithDigit : Text → Type 0
StartsWithDigit [] = ⊥
StartsWithDigit (c ∷ s) = (b'0' < c + 1) × (c < b'9' + 1)

show_loop-StartsWithDigit : (f n : ℕ) (rest : Text) → n < f → StartsWithDigit (show_loop f n rest)
unfolding show_loop
show_loop-StartsWithDigit zero n rest h = elim h [ ]
show_loop-StartsWithDigit (suc f) n rest h = elim (Bool-cases (ltb n 10)) [
  | inl small ↦ rw small (ground arith)
  | inr large ↦
      rw large (show_loop-StartsWithDigit f (n / 10) ((b'0' + n % 10) ∷ rest) (ground arith))
]

parse_int-digits :
    (s : Text) (n : ℕ)
    → StartsWithDigit s
    → digits 0 s ≡ some n
    → n < 2 ^ 63
    → parse_int s ≡ some (pos n)
unfolding parse_int
parse_int-digits [] n d e h = absurd d
parse_int-digits (c ∷ s) n d e h = ground arith

-- Parsing a printed number gives it back, within the range of int64.
pub parse_int-itoa : (n : ℕ) → n < 2 ^ 63 → parse_int (itoa n) ≡ some (pos n)
unfolding itoa
parse_int-itoa n h =
    parse_int-digits (itoa n) n (show_loop-StartsWithDigit (suc n) n [] (omega arith))
      (digits-itoa n) h

-- A printed number holds digits alone.
contains-show_loop :
    (f n c : ℕ) (rest : Text)
    → c < b'0' ⊎ b'9' < c
    → contains rest c ≡ false
    → contains (show_loop f n rest) c ≡ false
unfolding show_loop contains
contains-show_loop zero n c rest h e = e
contains-show_loop (suc f) n c rest h e = elim (Bool-cases (ltb n 10)) [
  | inl small ↦ rw small (ground arith)
  | inr large ↦ rw large (contains-show_loop f (n / 10) c ((b'0' + n % 10) ∷ rest) h (ground arith))
]

pub contains-itoa : (n c : ℕ) → c < b'0' ⊎ b'9' < c → contains (itoa n) c ≡ false
unfolding itoa contains
contains-itoa n c h = contains-show_loop (suc n) n c [] h refl
