-- ===== src/Prelude/Maps.antt =====
-- Go maps with string keys, as association lists in order of insertion.
use mathlib.Core.Path.{◌≡◌, refl}
use mathlib.Core.Bool.{Bool, true, false}
use mathlib.Core.List.{List, [], ◌∷◌}
use mathlib.Core.Option.{Option, none, some}
use native.Mathlib.Omega.{arith}
use k3c.Prelude.Tests.{if◌then◌else◌}
use k3c.Prelude.Lists.{all}
use k3c.Prelude.Text.{Text, ◌==◌, eq_iff, eq_refl, is_some}

abbrev pub Map {ℓ} : Type ℓ → Type ℓ
Map V = List (Text × V)

module _ {ℓ} {V : Type ℓ} where
  unfoldable pub lookup : Text → Map V → Option V
  lookup k [] = none
  lookup k ((j, v) ∷ m) = let rest = lookup k m in if j == k then some v else rest

  -- m[k] = v
  unfoldable pub insert : Text → V → Map V → Map V
  insert k v [] = (k, v) ∷ []
  insert k v ((j, w) ∷ m) = let rest = insert k v m in if j == k then (j, v) ∷ m else (j, w) ∷ rest

  -- delete(m, k)
  unfoldable pub delete : Text → Map V → Map V
  delete k [] = []
  delete k ((j, w) ∷ m) = let rest = delete k m in if j == k then rest else (j, w) ∷ rest

  pub lookup-delete :
      (j k : Text) (m : Map V) → lookup j (delete k m) ≡ (if k == j then none else lookup j m)
  unfolding lookup delete
  lookup-delete j k [] = ground arith
  lookup-delete j k ((i, w) ∷ m) =
      ground (arith, eq_iff k j, eq_iff i k, eq_iff i j, eq_refl k, lookup-delete j k m)

  pub lookup-nil : (k : Text) → lookup k [] ≡ none
  unfolding lookup
  lookup-nil k = refl

  -- m[k], with the zero value for a key that is not there
  abbrev pub get_or : V → Text → Map V → V
  get_or d k m = elim (lookup k m) [ none ↦ d | some v ↦ v ]

  pub lookup-insert :
      (j k : Text) (v : V) (m : Map V)
      → lookup j (insert k v m) ≡ (if k == j then some v else lookup j m)
  unfolding lookup insert
  lookup-insert j k v [] = refl
  lookup-insert j k v ((i, w) ∷ m) =
      ground (arith, eq_iff k j, eq_iff i k, eq_iff i j, eq_refl k, lookup-insert j k v m)

  pub get_or-insert :
      (d : V) (j k : Text) (v : V) (m : Map V)
      → get_or d j (insert k v m) ≡ (if k == j then v else get_or d j m)
  get_or-insert d j k v m = ground (arith, lookup-insert j k v m)

  -- Each key stands once.
  abbrev pub NodupKeys : Map V → Type 0
  NodupKeys [] = Unit
  NodupKeys ((k, v) ∷ m) = (is_some (lookup k m) ≡ false) × NodupKeys m

  pub insert-NodupKeys : (k : Text) (v : V) (m : Map V) → NodupKeys m → NodupKeys (insert k v m)
  unfolding lookup insert
  insert-NodupKeys k v [] h = (refl, tt)
  insert-NodupKeys k v ((i, w) ∷ m) h =
      ground (arith, insert-NodupKeys k v m, lookup-insert i k v m, eq_iff i k, eq_iff k i)

  -- The test of an entry by its value, where it has the key `j`.
  abbrev pub at_key : Text → (V → Bool) → Text × V → Bool
  at_key j f (k, v) = if k == j then f v else true

  abbrev pub holds : (V → Bool) → Option V → Bool
  holds f none = true
  holds f (some v) = f v

  pub all-at_key_absent :
      (j : Text) (f : V → Bool) (m : Map V)
      → is_some (lookup j m) ≡ false
      → all (at_key j f) m ≡ true
  unfolding lookup
  all-at_key_absent j f [] h = refl
  all-at_key_absent j f ((k, v) ∷ m) h = ground (arith, all-at_key_absent j f m)

  -- All entries of a key pass a test exactly when what is found under it does.
  pub all-at_key :
      (j : Text) (f : V → Bool) (m : Map V)
      → NodupKeys m
      → all (at_key j f) m ≡ holds f (lookup j m)
  unfolding lookup
  all-at_key j f [] h = refl
  all-at_key j f ((k, v) ∷ m) h =
      ground (arith, all-at_key j f m h.1, all-at_key_absent j f m, eq_iff k j)
