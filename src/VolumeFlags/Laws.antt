-- ===== src/VolumeFlags/Laws.antt =====
-- The four forms of a volume definition are read as the mounts that they mean.
use k3c.Prelude.{
  ◌≡◌, ◌≢◌, refl, Bool, true, false, Option, none, some, List, [], ◌∷◌, ◌++◌, map, arith,
}
use mathlib.Core.List.{append-nil}
use k3c.Prelude.Text.{Text, codes, contains, ◌==◌, eq_iff}
use k3c.Prelude.Text.Laws.{cut-append, cut_absent}
use k3c.Prelude.Results.{ok, err}
use k3c.Cri.{Mount, private}
use k3c.VolumeFlags.{split_3, mount_option, mount, invalid_option, parse_volume, parse}

-- A volume as a user writes it: a source if there is one, a destination, an option if there is one.
pub record Bind : Type 0 where
  pub src : Option Text
  pub dest : Text
  pub option : Option Bool

abbrev pub option_text : Option Bool → Text
option_text none = []
option_text (some true) = codes ":ro"
option_text (some false) = codes ":rw"

abbrev pub written_at : Option Text → Text → Option Bool → Text
written_at none dest o = dest ++ option_text o
written_at (some src) dest o = src ++ b':' ∷ (dest ++ option_text o)

abbrev pub written : Bind → Text
written b = written_at b.src b.dest b.option

abbrev tail_text : Text → Text
tail_text [] = []
tail_text (c ∷ s) = s

abbrev pub source_of : Option Text → Text
source_of none = []
source_of (some s) = s

abbrev pub is_readonly : Option Bool → Bool
is_readonly (some b) = b
is_readonly none = false

abbrev pub meant : Bind → Mount
meant b = record {
  container_path = b.dest;
  host_path = source_of b.src;
  readonly = is_readonly b.option;
  propagation = private;
}

abbrev pub HasNoColon : Text → Type 0
HasNoColon s = contains s b':' ≡ false

-- The paths hold no colon, and a destination that stands alone after a source is no option.
abbrev pub IsPlain : Option Text → Text → Option Bool → Type 0
IsPlain none dest o = HasNoColon dest
IsPlain (some src) dest none =
    HasNoColon src × HasNoColon dest × (dest ≢ codes "ro") × (dest ≢ codes "rw")
IsPlain (some src) dest (some _) = HasNoColon src × HasNoColon dest

abbrev pub ArePlain : List Bind → Type 0
ArePlain [] = Unit
ArePlain (b ∷ bs) = IsPlain b.src b.dest b.option × ArePlain bs

split_3-one : (a : Text) → HasNoColon a → split_3 a ≡ a ∷ []
unfolding split_3
split_3-one a h = rw (cut_absent b':' a h) refl

split_3-two : (a b : Text) → HasNoColon a → HasNoColon b → split_3 (a ++ b':' ∷ b) ≡ a ∷ b ∷ []
unfolding split_3
split_3-two a b h k = rw (cut-append b':' a b h) (rw (cut_absent b':' b k) refl)

split_3-three :
    (a b c : Text)
    → HasNoColon a
    → HasNoColon b
    → split_3 (a ++ b':' ∷ (b ++ b':' ∷ c)) ≡ a ∷ b ∷ c ∷ []
unfolding split_3
split_3-three a b c h k = rw (cut-append b':' a (b ++ b':' ∷ c) h) (rw (cut-append b':' b c k) refl)

mount_option_written : (ro : Bool) → mount_option (tail_text (option_text (some ro))) ≡ some ro
unfolding mount_option ◌==◌
mount_option_written true = refl
mount_option_written false = refl

mount_option_absent : (p : Text) → p ≢ codes "ro" → p ≢ codes "rw" → mount_option p ≡ none
unfolding mount_option
mount_option_absent p h k = ground (arith, eq_iff p (codes "ro"), eq_iff p (codes "rw"))

parse_volume_at :
    (src : Option Text) (dest : Text) (o : Option Bool)
    → IsPlain src dest o
    → parse_volume (written_at src dest o) ≡ ok (mount (source_of src) dest (is_readonly o))
unfolding parse_volume contains
parse_volume_at none dest none h = rw append-nil (rw (split_3-one dest h, parse_volume) refl)
parse_volume_at none dest (some true) h =
    rw (split_3-two dest (codes "ro") h refl, parse_volume) (rw (mount_option_written true) refl)
parse_volume_at none dest (some false) h =
    rw (split_3-two dest (codes "rw") h refl, parse_volume) (rw (mount_option_written false) refl)
parse_volume_at (some src) dest none h =
    rw append-nil
      (rw (split_3-two src dest h.0 h.1, parse_volume) (rw (mount_option_absent dest h.2 h.3) refl))
parse_volume_at (some src) dest (some true) h =
    rw (split_3-three src dest (codes "ro") h.0 h.1, parse_volume)
      (rw (mount_option_written true) refl)
parse_volume_at (some src) dest (some false) h =
    rw (split_3-three src dest (codes "rw") h.0 h.1, parse_volume)
      (rw (mount_option_written false) refl)

-- A list of volume definitions in any of the four forms dest, dest:option, src:dest and
-- src:dest:option, with no colon in a path, and no destination after a source that reads ro or rw
-- where no option follows, parses without an error to exactly the mounts that it means, in order.
pub parse_volumes-written :
    (bs : List Bind) → ArePlain bs → parse (map written bs) ≡ ok (map meant bs)
unfolding parse
parse_volumes-written [] h = refl
parse_volumes-written (b ∷ bs) h =
    rw (parse_volume_at b.src b.dest b.option h.0, parse_volumes-written bs h.1) refl

-- A definition of three parts whose last part is no option is refused, and the error names that
-- part and the definition.
pub parse_volume-invalid_option :
    (a b c : Text)
    → HasNoColon a
    → HasNoColon b
    → c ≢ codes "ro"
    → c ≢ codes "rw"
    → let volume = a ++ b':' ∷ (b ++ b':' ∷ c) in
      parse_volume volume ≡ err (invalid_option c volume)
unfolding parse_volume
parse_volume-invalid_option a b c ha hb h k =
    rw (split_3-three a b c ha hb, parse_volume) (rw (mount_option_absent c h k) refl)
