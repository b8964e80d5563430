-- ===== src/Paths.antt =====
-- Clean, Join and Base of Go's package path/filepath on Unix, which the program builds its paths by.
pub mod Laws
use mathlib.Core.List.{foldl, reverse}
use k3c.Prelude.{ℕ, Bool, true, false, List, [], ◌∷◌, ◌++◌, eqb, ◌||◌, if◌then◌else◌}
use k3c.Prelude.Text.{Text, codes, ◌==◌, is_empty}

abbrev in_front : ℕ → List Text → List Text
in_front c [] = (c ∷ []) ∷ []
in_front c (p ∷ ps) = (c ∷ p) ∷ ps

-- strings.Split(s, "/")
unfoldable pub split : Text → List Text
split [] = [] ∷ []
split (c ∷ s) = let rest = split s in if eqb c b'/' then [] ∷ rest else in_front c rest

-- A component of "..", over the components before it, last one first.
abbrev go_up : Bool → List Text → List Text
go_up true [] = []
go_up false [] = codes ".." ∷ []
go_up rooted (top ∷ rest) = if top == codes ".." then codes ".." ∷ top ∷ rest else rest

unfoldable pub push_component : Bool → List Text → Text → List Text
push_component rooted stack c =
    if is_empty c || c == codes "."
    then stack
    else if c == codes ".."
    then go_up rooted stack
    else c ∷ stack

abbrev pub is_rooted : Text → Bool
is_rooted [] = false
is_rooted (c ∷ s) = eqb c b'/'

-- The components of the clean path, last one first.
unfoldable pub components : Bool → Text → List Text
components rooted s = foldl (push_component rooted) [] (split s)

abbrev pub join_slash : List Text → Text
join_slash [] = []
join_slash (c ∷ []) = c
join_slash (c ∷ d ∷ cs) = c ++ b'/' ∷ join_slash (d ∷ cs)

-- A path of the components `cs`, first one first.
abbrev pub render : Bool → List Text → Text
render true cs = b'/' ∷ join_slash cs
render false [] = codes "."
render false (c ∷ cs) = join_slash (c ∷ cs)

unfoldable pub clean : Text → Text
clean s = let rooted = is_rooted s in render rooted (reverse (components rooted s))

-- Join of two elements: empty ones are left out.
unfoldable pub join : Text → Text → Text
join [] [] = []
join [] (c ∷ t) = clean (c ∷ t)
join (a ∷ s) [] = clean (a ∷ s)
join (a ∷ s) (c ∷ t) = clean ((a ∷ s) ++ b'/' ∷ c ∷ t)

-- The last component that is not empty, or the one given.
abbrev last_component : Text → List Text → Text
last_component d [] = d
last_component d (c ∷ cs) = last_component (if is_empty c then d else c) cs

unfoldable pub base : Text → Text
base [] = codes "."
base (c ∷ s) = last_component (codes "/") (split (c ∷ s))
