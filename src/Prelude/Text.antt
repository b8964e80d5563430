-- ===== src/Prelude/Text.antt =====
-- Go strings as byte sequences, with the parts of package strings that the program calls.
pub mod Laws
use Prim.Native.Char.{code}
use Prim.Native.String.{String}
use Prim.Native.Nat.{ℕ}
use mathlib.Core.Path.{◌≡◌, refl}
use mathlib.Core.Logic.{◌↔◌}
use mathlib.Core.Bool.{Bool, true, false, ◌&&◌, ◌||◌}
use mathlib.Core.List.{List, [], ◌∷◌, reverse}
use mathlib.Core.Option.{Option, none, some}
use native.Mathlib.Omega.{arith}
use k3c.Prelude.Tests.{eqb, if◌then◌else◌}

abbrev pub Text : Type 0
Text = List ℕ

-- The bytes of an ASCII literal.
abbrev pub codes : String → Text
codes String.[] = []
codes (String.◌∷◌ c s) = code c ∷ codes s

infix 50 ◌==◌
unfoldable pub ◌==◌ : Text → Text → Bool
[] == [] = true
(a ∷ s) == (b ∷ t) = eqb a b && s == t
_ == _ = false

pub eq_refl : (s : Text) → (s == s) ≡ true
unfolding ◌==◌
eq_refl [] = refl
eq_refl (a ∷ s) = ground (arith, eq_refl s)

pub eq_sound : (s t : Text) → (s == t) ≡ true → s ≡ t
unfolding ◌==◌
eq_sound [] [] h = refl
eq_sound (a ∷ s) (b ∷ t) h = ground (arith, eq_sound s t)
eq_sound [] (b ∷ t) h = ground arith
eq_sound (a ∷ s) [] h = ground arith

pub eq_iff : (s t : Text) → ((s == t) ≡ true) ↔ (s ≡ t)
eq_iff s t = (eq_sound s t, λ e. rw e (eq_refl t))

abbrev pub is_empty : Text → Bool
is_empty [] = true
is_empty (a ∷ s) = false

-- What follows the prefix, if the text begins with it: strings.HasPrefix and TrimPrefix.
unfoldable pub strip_prefix : Text → Text → Option Text
strip_prefix [] s = some s
strip_prefix (p ∷ ps) [] = none
strip_prefix (p ∷ ps) (a ∷ s) = let rest = strip_prefix ps s in if eqb p a then rest else none

abbrev pub is_some {ℓ} : {A : Type ℓ} → Option A → Bool
is_some none = false
is_some (some _) = true

unfoldable pub has_prefix : Text → Text → Bool
unfolding strip_prefix
has_prefix s prefix = is_some (strip_prefix prefix s)

-- strings.HasSuffix, with what stands before the suffix.
unfoldable pub strip_suffix : Text → Text → Option Text
unfolding strip_prefix
strip_suffix suffix s = elim (strip_prefix (reverse suffix) (reverse s)) [
  | none ↦ none
  | some rest ↦ some (reverse rest)
]

unfoldable pub has_suffix : Text → Text → Bool
unfolding strip_suffix
has_suffix s suffix = is_some (strip_suffix suffix s)

unfoldable pub contains : Text → ℕ → Bool
contains [] c = false
contains (a ∷ s) c = eqb a c || contains s c

-- The text up to the first separator byte, and what follows it: strings.SplitN(s, sep, 2).
unfoldable pub cut : ℕ → Text → Text × Option Text
cut sep [] = ([], none)
cut sep (a ∷ s) = let rest = cut sep s in if eqb a sep then ([], some s) else (a ∷ rest.0, rest.1)
