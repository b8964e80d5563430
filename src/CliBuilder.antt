-- ===== src/CliBuilder.antt =====
-- pkg/clibuilder: from the fields of a command's struct to its flags, and from the flags' values back
-- to the fields. Reflection becomes a description of the struct.
use k3c.Prelude.{
  ℕ, ◌+◌, ◌/◌, Bool, ◌&&◌, Option, none, some, List, [], ◌∷◌, ◌++◌, map, length, ltb, leb, eqb,
  if◌then◌else◌,
}
use k3c.Prelude.Text.{Text, codes, is_empty, ◌==◌, cut}
use k3c.Prelude.Maps.{Map, insert}
use k3c.Prelude.Int.{ℤ, pos}
use k3c.Prelude.Results.{Result, ok, panic, ◌>>=◌}
use k3c.Table.{take}

-- reflect.Kind, as far as it is told apart
pub data FieldKind : Type 0 where
  int_kind string_kind slice_kind map_kind bool_kind other_kind : FieldKind

-- A field with its tags
pub record Field : Type 0 where
  pub name : Text
  pub tag_name : Text
  pub usage : Text
  pub env : Text
  pub default : Text
  pub kind : FieldKind

-- A member of a struct: an embedded struct, an embedded type of another kind, or a field.
mutual
  pub data Member : Type 0 where
    embedded : Members → Member
    embedded_other : Member
    field : Field → Member

  pub data Members : Type 0 where
    end : Members
    and : Member → Members → Members

unfoldable mutual
  pub fields : Members → List Field
  fields end = []
  fields (and m ms) = fields_of m ++ fields ms

  pub fields_of : Member → List Field
  fields_of (embedded ms) = fields ms
  fields_of embedded_other = []
  fields_of (field f) = f ∷ []

abbrev is_lower : ℕ → Bool
is_lower c = leb b'a' c && leb c b'z'

abbrev is_upper : ℕ → Bool
is_upper c = leb b'A' c && leb c b'Z'

-- strings.ToLower, on ASCII
abbrev lower : Text → Text
lower = map (λ c. if is_upper c then c + 32 else c)

-- ReplaceAllString of ([a-z])([A-Z]) by $1-$2
unfoldable pub dashed : Text → Text
dashed [] = []
dashed (a ∷ []) = a ∷ []
dashed (a ∷ b ∷ s) =
    let rest = dashed s in
    let next = dashed (b ∷ s) in if is_lower a && is_upper b then a ∷ b'-' ∷ b ∷ rest else a ∷ next

abbrev in_front : ℕ → List Text → List Text
in_front c [] = (c ∷ []) ∷ []
in_front c (p ∷ ps) = (c ∷ p) ∷ ps

-- strings.Split at one byte
unfoldable pub split_at : ℕ → Text → List Text
split_at sep [] = [] ∷ []
split_at sep (c ∷ s) = let rest = split_at sep s in if eqb c sep then [] ∷ rest else in_front c rest

abbrev last_part : Text → List Text → Text
last_part d [] = d
last_part d (p ∷ ps) = last_part p ps

abbrev but_last : List Text → List Text
but_last [] = []
but_last (p ∷ []) = []
but_last (p ∷ q ∷ ps) = p ∷ but_last (q ∷ ps)

-- The name of a flag and its aliases.
unfoldable pub name : Text → Text → Text × List Text
unfolding dashed split_at
name field_name set_name =
    if is_empty set_name
    then (
      lower (dashed (last_part [] (split_at b'_' field_name))),
      map lower (but_last (split_at b'_' field_name)),
    )
    else (set_name, [])

-- A flag of urfave/cli, with the value it has by default.
pub data Value : Type 0 where
  int_value : ℤ → Value
  string_value : Text → Value
  slice_value : Value
  bool_value : Bool → Value

pub record Flag : Type 0 where
  pub name : Text
  pub aliases : List Text
  pub usage : Text
  pub env : List Text
  pub value : Value

abbrev env_of : Text → List Text
env_of env = if is_empty env then [] else split_at b',' env

module _ (atoi : Text → Option ℤ) where
  abbrev int_default : Text → Result ℤ
  int_default text = if is_empty text then ok (pos 0) else parsed (atoi text)
    where
      parsed : Option ℤ → Result ℤ
      parsed none = panic
      parsed (some n) = ok n

  -- The usage of a flag with several values ends in a space.
  abbrev value_of : Field → Result (Value × Text)
  value_of f = by_kind f.kind
    where
      by_kind : FieldKind → Result (Value × Text)
      by_kind int_kind = do n ← int_default f.default; ok (int_value n, f.usage)
      by_kind string_kind = ok (string_value f.default, f.usage)
      by_kind slice_kind = ok (slice_value, f.usage ++ codes " ")
      by_kind map_kind = ok (slice_value, f.usage ++ codes " ")
      by_kind bool_kind = ok (bool_value (f.default == codes "true"), f.usage)
      by_kind other_kind = panic

  unfoldable pub flag_of : Field → Result Flag
  unfolding name split_at
  flag_of f = do
    (value, usage) ← value_of f
    let (flag_name, aliases) = name f.name f.tag_name
    ok (record {
      name = flag_name;
      aliases = aliases;
      usage = usage;
      env = env_of f.env;
      value = value;
    })

  -- The loop over the fields: a bad default and an unknown kind panic.
  unfoldable pub flags_of : List Field → Result (List Flag)
  unfolding flag_of
  flags_of [] = ok []
  flags_of (f ∷ fs) = do flag ← flag_of f; flags ← flags_of fs; ok (flag ∷ flags)

  unfoldable pub command : Members → Result (List Flag)
  unfolding flags_of fields fields_of
  command ms = flags_of (fields ms)

-- What a map's flag assigns: the parts before and after the first equals sign.
abbrev after_equals : Option Text → Text
after_equals none = []
after_equals (some v) = v

unfoldable pub assign_map : List Text → Map Text → Map Text
assign_map [] m = m
assign_map (part ∷ parts) m =
    let (k, v) = cut b'=' part in assign_map parts (insert k (after_equals v) m)

-- What a slice's flag assigns: the first half of several values.
unfoldable pub assign_slice : List Text → List Text
assign_slice s = if ltb 1 (length s) then take (length s / 2) s else s

-- The name after the last comma.
unfoldable pub context_key : Text → Text
unfolding split_at
context_key name = last_part [] (split_at b',' name)
