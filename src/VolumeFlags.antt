-- ===== src/VolumeFlags.antt =====
-- pkg/volumes/volume.go: the mounts of `--volume`, [/host-src:]/container-dest[:ro].
pub mod Laws
use k3c.Prelude.{Bool, true, false, Option, none, some, List, [], ◌∷◌, ◌++◌, if◌then◌else◌}
use k3c.Prelude.Text.{Text, codes, cut, ◌==◌}
use k3c.Prelude.Results.{Error, Result, ok, err, message, traverse}
use k3c.Cri.{Mount, private}

abbrev first_part : Text × Option Text → List Text
first_part (s, none) = s ∷ []
first_part (s, some rest) = s ∷ rest ∷ []

abbrev rest_parts : Text × Option Text → List Text
rest_parts (s, none) = s ∷ []
rest_parts (s, some rest) = s ∷ first_part (cut b':' rest)

-- strings.SplitN(volume, ":", 3)
unfoldable pub split_3 : Text → List Text
unfolding cut
split_3 s = rest_parts (cut b':' s)

-- Whether the last of several parts is an option, and which: `some true` for "ro".
mount_option : Text → Option Bool
mount_option p = if p == codes "ro" then some true else if p == codes "rw" then some false else none

abbrev mount : Text → Text → Bool → Mount
mount src dest ro = record {
  container_path = dest;
  host_path = src;
  readonly = ro;
  propagation = private;
}

-- The switch on the number of parts, with the option taken off.
abbrev two_parts : Text → Text → Option Bool → Mount
two_parts a b (some ro) = mount [] a ro
two_parts a b none = mount a b false

abbrev pub invalid_option : Text → Text → Error
invalid_option part volume =
    message (codes "invalid option: " ++ (part ++ (codes " in volume definition: " ++ volume)))

abbrev three_parts : Text → Text → Text → Text → Option Bool → Result Mount
three_parts volume a b c (some ro) = ok (mount a b ro)
three_parts volume a b c none = err (invalid_option c volume)

from_parts : Text → List Text → Result Mount
unfolding mount_option
from_parts volume [] = ok (mount [] [] false)
from_parts volume (a ∷ []) = ok (mount [] a false)
from_parts volume (a ∷ b ∷ []) = ok (two_parts a b (mount_option b))
from_parts volume (a ∷ b ∷ c ∷ _) = three_parts volume a b c (mount_option c)

-- One round of the loop.
unfoldable pub parse_volume : Text → Result Mount
unfolding split_3 from_parts
parse_volume volume = from_parts volume (split_3 volume)

unfoldable pub parse : List Text → Result (List Mount)
parse = traverse parse_volume
