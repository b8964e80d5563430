-- ===== src/Daemon/Ids/Laws.antt =====
-- Users and groups that are names, numbers or root.
use k3c.Prelude.{◌≡◌, refl, none, some, List, [], ◌∷◌, ◌++◌, true, false, arith}
use k3c.Prelude.Text.{Text, codes, eq_iff}
use k3c.Prelude.Int.{ℤ, parse_int}
use k3c.Prelude.Results.{ok, panic}
use k3c.Daemon.Ids.{is_root, to_id, to_group_ids}

no_number : (parse_int [] ≡ none) × (parse_int (codes "root") ≡ none)
unfolding parse_int
no_number = (refl, refl)

root_unparsed : (val : Text) → is_root val ≡ true → parse_int val ≡ none
root_unparsed [] h = no_number.0
root_unparsed (c ∷ s) h = rw ((eq_iff (c ∷ s) (codes "root")).0 h) no_number.1

number_not_root : (val : Text) {n : ℤ} → parse_int val ≡ some n → is_root val ≡ false
number_not_root val e = ground (arith, root_unparsed val)

to_id_number : (val : Text) {n : ℤ} → parse_int val ≡ some n → to_id val ≡ ok (some n)
unfolding to_id
to_id_number val e = ground (arith, number_not_root val e)

to_id_root : (val : Text) → is_root val ≡ true → to_id val ≡ ok none
unfolding to_id
to_id_root val h = ground arith

abbrev pub AllParse : List Text → List ℤ → Type 0
AllParse [] [] = Unit
AllParse (g ∷ gs) (n ∷ ns) = (parse_int g ≡ some n) × AllParse gs ns
AllParse _ _ = ⊥

-- A list of groups that are all numbers gives those numbers. If after such groups there comes an
-- empty one or the group root, for which there is no number, the conversion panics, whatever
-- follows.
pub to_group_ids_lem :
    (groups : List Text) (ns : List ℤ) (g : Text) (rest : List Text)
    → AllParse groups ns
    → is_root g ≡ true
    → (to_group_ids groups ≡ ok ns) × (to_group_ids (groups ++ g ∷ rest) ≡ panic)
unfolding to_group_ids
to_group_ids_lem [] [] g rest h r = (refl, rw (to_id_root g r) refl)
to_group_ids_lem (x ∷ groups) (n ∷ ns) g rest h r =
    let (numbers, panics) = to_group_ids_lem groups ns g rest h.1 r in
    (rw (to_id_number x h.0, numbers) refl, rw (to_id_number x h.0, panics) refl)
to_group_ids_lem [] (n ∷ ns) g rest h r = absurd h
to_group_ids_lem (x ∷ groups) [] g rest h r = absurd h
