-- ===== src/Volume/Resolve.antt =====
-- Where volumes lie, and what kind a mounted path is.
use k3c.Prelude.{
  ℕ, ◌<◌, ◌≡◌, refl, sym, ap, ◌∙◌, ◌/◌, ◌%◌, true, false, List, [], ◌∷◌, ◌++◌, all, length, arith,
  ◌*◌, if◌then◌else◌,
}
use k3c.Prelude.Text.{Text, codes, contains, has_prefix, ◌==◌}
use k3c.Prelude.Results.{ok}
use k3c.Paths.{components, split, push_component, is_rooted, render, join, base}
use k3c.Paths.Laws.{IsComponent, parts, join_component, base-join}
use k3c.Volume.{
  named, ephemeral, default_volume_dir, is_name_byte, is_hex_byte, matches_name, matches_hex,
  hex_digit, hex_encode, path_to_type, resolve,
}

all_name-no_slash : (s : Text) → all is_name_byte s ≡ true → contains s b'/' ≡ false
unfolding contains
all_name-no_slash [] h = refl
all_name-no_slash (c ∷ s) h = ground (arith, all_name-no_slash s)

-- A volume name is one component of a path.
pub matches_name-IsComponent : (id : Text) → matches_name id ≡ true → IsComponent id
unfolding matches_name ◌==◌
matches_name-IsComponent [] h = cc
matches_name-IsComponent (c ∷ s) h = record {
  not_empty = refl;
  no_slash = all_name-no_slash (c ∷ s) (ground arith);
  not_dot = ground arith;
  not_dots = ground arith;
}

resolve-eq-ok :
    (dir id : Text) {p : Text}
    → resolve dir id ≡ ok p
    → (matches_name id ≡ true) × (join dir id ≡ p)
unfolding resolve
resolve-eq-ok dir id h = ground arith

-- Whatever the base directory, a name that resolves lies directly in it: its path is that of the
-- cleaned base directory with the name as one more component, so no name leads out of it.
pub resolve_in_base :
    (dir id : Text) {p : Text}
    → resolve dir id ≡ ok p
    → (contains id b'/' ≡ false)
      × (p ≡ render (is_rooted dir) (parts dir ++ id ∷ []))
      × (base p ≡ id)
resolve_in_base dir id h =
    let (good, e) = resolve-eq-ok dir id h in
    let plain = matches_name-IsComponent id good in
    (plain.no_slash, sym e ∙ join_component dir id plain, ap base (sym e) ∙ base-join dir id plain)

abbrev pub AllBytes : List ℕ → Type 0
AllBytes [] = Unit
AllBytes (b ∷ bs) = (b < 256) × AllBytes bs

hex_digit-is_hex : (n : ℕ) → n < 16 → is_hex_byte (hex_digit n) ≡ true
hex_digit-is_hex n h = ground arith

all_hex-hex_encode : (bs : List ℕ) → AllBytes bs → all is_hex_byte (hex_encode bs) ≡ true
unfolding hex_encode
all_hex-hex_encode [] h = refl
all_hex-hex_encode (b ∷ bs) h =
    rw (hex_digit-is_hex (b / 16) (omega (arith, h.0)), hex_digit-is_hex (b % 16) (omega arith))
      (all_hex-hex_encode bs h.1)

length-hex_encode : (bs : List ℕ) → length (hex_encode bs) ≡ 2 * length bs
unfolding hex_encode
length-hex_encode [] = refl
length-hex_encode (b ∷ bs) = omega (arith, length-hex_encode bs)

-- The digits of sixteen bytes are the name of an ephemeral volume.
pub hex_encode-matches_hex :
    (bs : List ℕ) → length bs ≡ 16 → AllBytes bs → matches_hex (hex_encode bs) ≡ true
unfolding matches_hex
hex_encode-matches_hex bs n h = ground (arith, all_hex-hex_encode bs h, length-hex_encode bs)

hex_is_name : (c : ℕ) → is_hex_byte c ≡ true → is_name_byte c ≡ true
hex_is_name c h = ground arith

all_hex_is_name : (s : Text) → all is_hex_byte s ≡ true → all is_name_byte s ≡ true
all_hex_is_name [] h = refl
all_hex_is_name (c ∷ s) h = ground (arith, hex_is_name c, all_hex_is_name s)

pub matches_hex-matches_name : (s : Text) → matches_hex s ≡ true → matches_name s ≡ true
unfolding matches_hex matches_name
matches_hex-matches_name [] h = ground arith
matches_hex-matches_name (c ∷ s) h = ground (arith, all_hex_is_name (c ∷ s))

default_parts :
    parts default_volume_dir
    ≡ codes "var" ∷ codes "lib" ∷ codes "rancher" ∷ codes "k3c" ∷ codes "volumes" ∷ []
unfolding components split push_component ◌==◌
default_parts = refl

default-has_prefix :
    (id p : Text)
    → p ≡ render true (parts default_volume_dir ++ id ∷ [])
    → has_prefix p default_volume_dir ≡ true
unfolding has_prefix
default-has_prefix id p e = rw (e, default_parts) refl

-- A volume of the default directory is told from a host path by its path alone: the path that a
-- name resolves to is classified under that very name, as ephemeral if the name is 32 lower-case
-- hexadecimal digits and as a named volume otherwise.
pub path_to_type-resolve :
    (md5 : Text → List ℕ) (id : Text) {p : Text}
    → resolve default_volume_dir id ≡ ok p
    → path_to_type md5 p ≡ (id, if matches_hex id then ephemeral else named)
unfolding path_to_type
path_to_type-resolve md5 id {p} h =
    let (_, path, name) = resolve_in_base default_volume_dir id h in
    rw (default-has_prefix id p path, name) refl
