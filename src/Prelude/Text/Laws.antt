-- ===== src/Prelude/Text/Laws.antt =====
-- Taking texts apart that were put together.
use mathlib.Core.Path.{◌≡◌, refl}
use mathlib.Core.Bool.{false}
use mathlib.Core.List.{[], ◌∷◌, ◌++◌, reverse, reverse-append, reverse-reverse}
use mathlib.Core.Option.{none, some}
use native.Mathlib.Omega.{arith}
use Prim.Native.Nat.{ℕ}
use k3c.Prelude.Text.{Text, strip_prefix, strip_suffix, contains, cut}

pub strip_prefix-append : (p s : Text) → strip_prefix p (p ++ s) ≡ some s
unfolding strip_prefix
strip_prefix-append [] s = refl
strip_prefix-append (c ∷ p) s = ground (arith, strip_prefix-append p s)

-- What a prefix leaves behind completes it.
pub strip_prefix_sound : (p s r : Text) → strip_prefix p s ≡ some r → s ≡ p ++ r
unfolding strip_prefix
strip_prefix_sound [] s r e = ground arith
strip_prefix_sound (c ∷ p) [] r e = ground arith
strip_prefix_sound (c ∷ p) (a ∷ s) r e = ground (arith, strip_prefix_sound p s r)

pub strip_suffix-append : (s suffix : Text) → strip_suffix suffix (s ++ suffix) ≡ some s
unfolding strip_suffix
strip_suffix-append s suffix =
    rw (reverse-append s suffix, strip_prefix-append (reverse suffix) (reverse s), strip_suffix)
      (rw reverse-reverse)

pub cut-append :
    (sep : ℕ) (s t : Text) → contains s sep ≡ false → cut sep (s ++ sep ∷ t) ≡ (s, some t)
unfolding cut contains
cut-append sep [] t h = ground arith
cut-append sep (a ∷ s) t h = ground (arith, cut-append sep s t)

pub cut_absent : (sep : ℕ) (s : Text) → contains s sep ≡ false → cut sep s ≡ (s, none)
unfolding cut contains
cut_absent sep [] h = refl
cut_absent sep (a ∷ s) h = ground (arith, cut_absent sep s)

pub contains-append :
    (s t : Text) (c : ℕ) → contains s c ≡ false → contains t c ≡ false → contains (s ++ t) c ≡ false
unfolding contains
contains-append [] t c h k = k
contains-append (a ∷ s) t c h k = ground (arith, contains-append s t c)
