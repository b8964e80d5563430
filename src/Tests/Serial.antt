-- ===== src/Tests/Serial.antt =====
-- Encodings that put a value in front of a text and read it back: a concrete JSON codec's stand-in.
use k3c.Prelude.{ℕ, suc, zero, ◌≡◌, refl, Option, none, some, List, [], ◌∷◌, length}
use k3c.Prelude.Text.{Text}

pub record Serial (A : Type 0) : Type 0 where
  pub enc : A → Text → Text
  pub dec : Text → Option (A × Text)
  pub dec-enc : (a : A) (rest : Text) → dec (enc a rest) ≡ some (a, rest)

abbrev pub serial_nat : Serial ℕ
serial_nat = record { enc = ◌∷◌; dec = dec; dec-enc = λ n rest. refl }
  where
    dec : Text → Option (ℕ × Text)
    dec [] = none
    dec (n ∷ rest) = some (n, rest)

abbrev pub serial_via :
    {A B : Type 0} (to : A → B) (from : B → A) → ((a : A) → from (to a) ≡ a) → Serial B → Serial A
serial_via {A} {B} to from law s = record {
  enc = λ a. s.enc (to a);
  dec = λ t. back (s.dec t);
  dec-enc = λ a rest. rw s.dec-enc (rw law refl);
}
  where
    back : Option (B × Text) → Option (A × Text)
    back none = none
    back (some (b, rest)) = some (from b, rest)

abbrev pub serial_pair : {A B : Type 0} → Serial A → Serial B → Serial (A × B)
serial_pair {A} {B} s t = record {
  enc = λ p rest. s.enc p.0 (t.enc p.1 rest);
  dec = λ text. second (s.dec text);
  dec-enc = λ p rest. rw s.dec-enc (rw t.dec-enc refl);
}
  where
    both : A → Option (B × Text) → Option ((A × B) × Text)
    both a none = none
    both a (some (b, rest)) = some ((a, b), rest)

    second : Option (A × Text) → Option ((A × B) × Text)
    second none = none
    second (some (a, rest)) = both a (t.dec rest)

module _ {A : Type 0} (s : Serial A) where
  abbrev pub enc_all : List A → Text → Text
  enc_all [] rest = rest
  enc_all (a ∷ xs) rest = s.enc a (enc_all xs rest)

  abbrev pub cons_to : A → Option (List A × Text) → Option (List A × Text)
  cons_to a none = none
  cons_to a (some (xs, rest)) = some (a ∷ xs, rest)

  abbrev pub then_dec :
      Option (A × Text) → (A × Text → Option (List A × Text)) → Option (List A × Text)
  then_dec none f = none
  then_dec (some p) f = f p

  abbrev pub dec_all : ℕ → Text → Option (List A × Text)
  dec_all zero t = some ([], t)
  dec_all (suc n) t = then_dec (s.dec t) (λ p. cons_to p.0 (dec_all n p.1))

  pub dec_all-enc_all :
      (xs : List A) (rest : Text) → dec_all (length xs) (enc_all xs rest) ≡ some (xs, rest)
  dec_all-enc_all [] rest = refl
  dec_all-enc_all (a ∷ xs) rest = rw s.dec-enc (rw (dec_all-enc_all xs rest) refl)

  abbrev pub dec_counted : Text → Option (List A × Text)
  dec_counted [] = none
  dec_counted (n ∷ t) = dec_all n t

  abbrev pub serial_list : Serial (List A)
  serial_list = record {
    enc = λ xs rest. length xs ∷ enc_all xs rest;
    dec = dec_counted;
    dec-enc = dec_all-enc_all;
  }

  abbrev pub to_list : Option A → List A
  to_list none = []
  to_list (some a) = a ∷ []

  abbrev pub of_list : List A → Option A
  of_list [] = none
  of_list (a ∷ _) = some a

  pub of_list-to_list : (o : Option A) → of_list (to_list o) ≡ o
  of_list-to_list none = refl
  of_list-to_list (some a) = refl

  abbrev pub serial_option : Serial (Option A)
  serial_option = serial_via to_list of_list of_list-to_list serial_list
