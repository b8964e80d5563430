-- ===== src/Tests/Codecs/Scalars.antt =====
-- Encodings of the plain types.
use k3c.Prelude.{ℕ, zero, suc, ◌≡◌, refl, Bool, true, false, List}
use k3c.Prelude.Text.{Text}
use k3c.Prelude.Maps.{Map}
use k3c.Prelude.Int.{ℤ, pos, negsuc}
use k3c.Tests.Serial.{Serial, serial_nat, serial_via, serial_pair, serial_list}

infixr 4 ◌&◌
abbrev pub ◌&◌ : {A B : Type 0} → Serial A → Serial B → Serial (A × B)
s & t = serial_pair s t

abbrev pub text : Serial Text
text = serial_list serial_nat

abbrev pub texts : Serial (List Text)
texts = serial_list text

abbrev pub map_of_text : Serial (Map Text)
map_of_text = serial_list (text & text)

abbrev pub bool : Serial Bool
bool = serial_via to from law serial_nat
  where
    to : Bool → ℕ
    to false = 0
    to true = 1

    from : ℕ → Bool
    from zero = false
    from (suc _) = true

    law : (b : Bool) → from (to b) ≡ b
    law false = refl
    law true = refl

abbrev pub int : Serial ℤ
int = serial_via to from law (serial_nat & serial_nat)
  where
    to : ℤ → ℕ × ℕ
    to (pos n) = (0, n)
    to (negsuc n) = (1, n)

    from : ℕ × ℕ → ℤ
    from (zero, n) = pos n
    from (suc _, n) = negsuc n

    law : (b : ℤ) → from (to b) ≡ b
    law (pos n) = refl
    law (negsuc n) = refl
