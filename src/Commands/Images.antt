-- ===== src/Commands/Images.antt =====
-- The commands pull, push, tag and volume create (cmd), and the check of the number of arguments
-- (pkg/validate).
use k3c.Prelude.{
  ℕ, Bool, true, false, not, ◌&&◌, Option, none, some, List, [], ◌∷◌, ◌++◌, length, eqb, ltb,
  if◌then◌else◌,
}
use k3c.Prelude.Text.{Text, codes}
use k3c.Prelude.Decimal.{itoa}
use k3c.Prelude.Results.{Error, Result, ok, err, message, Exec, and_then}
use k3c.Remote.Interface.{Client}
use k3c.Commands.Create.{Libraries, pull_image}

unfoldable pub plural : ℕ → Text
plural count = if ltb 1 count then codes "s" else []

abbrev requires : Text → Text → ℕ → Error
requires name how n = message (
    b'"' ∷ name
    ++ codes "\" requires "
    ++ how
    ++ itoa n
    ++ codes " argument"
    ++ plural n
    ++ codes ", see --help")

abbrev above : Option ℕ → ℕ → Bool
above none given = false
above (some max) given = ltb max given

abbrev is_exactly : ℕ → Option ℕ → Bool
is_exactly min none = false
is_exactly min (some max) = eqb min max

abbrev limit : Option ℕ → ℕ
limit none = 0
limit (some max) = max

-- No maximum is -1.
unfoldable pub n_args : Text → ℕ → Option ℕ → List Text → Result (Unit {0})
unfolding plural
n_args name min max given =
    if is_exactly min max && not (eqb (length given) min)
    then err (requires name (codes "exactly ") min)
    else if ltb (length given) min
    then err (requires name (codes "at least ") min)
    else if above max (length given)
    then err (requires name (codes "no more than ") (limit max))
    else ok tt

abbrev pub first_arg : List Text → Text
first_arg [] = []
first_arg (x ∷ xs) = x

abbrev other_args : List Text → List Text
other_args [] = []
other_args (x ∷ xs) = xs

module _ {W : Type 0} (cl : Client W) where
  -- A quiet pull has a nil file for its output, which is not the nil writer, so it follows the
  -- progress too.
  unfoldable pub pull : Libraries → Bool → List Text → Exec W Text
  unfolding n_args
  pull libs quiet args w =
      and_then (n_args (codes "pull") 1 (some 1) args, w)
        (λ _ w'. pull_image cl libs (first_arg args) true true w')

  -- The error of the progress is dropped.
  unfoldable pub push : Libraries → List Text → Exec W (Unit {0})
  unfolding n_args
  push libs args w =
      and_then (n_args (codes "pull") 1 (some 1) args, w)
        (λ _ w'. cl.push_image (first_arg args) (libs.lookup_auth (first_arg args)) w')

  unfoldable pub tag : List Text → Exec W (Unit {0})
  unfolding n_args
  tag args w =
      and_then (n_args (codes "tag") 2 none args, w)
        (λ _ w'. cl.tag_image (first_arg args) (other_args args) w')

  unfoldable pub volume_create : List Text → Exec W Text
  unfolding n_args
  volume_create args w =
      and_then (n_args (codes "volume create") 0 (some 1) args, w)
        (λ _ w1. and_then (cl.create_volume (first_arg args) w1) (λ v w2. (ok v.id, w2)))
