-- ===== src/Table.antt =====
-- pkg/table: the columns of a list as text templates, and the writer that prints a header once and a
-- row for each object. Templates, encoders and the output are parameters.

pub mod Laws
use k3c.Prelude.{
  ℕ, zero, suc, Bool, true, false, not, ◌&&◌, ◌||◌, Option, none, some, List, [], ◌∷◌, ◌++◌,
  if◌then◌else◌,
}
use k3c.Prelude.Text.{Text, codes, is_empty, ◌==◌, has_prefix}
use k3c.Prelude.Results.{Error, Result, ok, err, panic, Exec}

-- strings.Contains
unfoldable pub has_infix : Text → Text → Bool
has_infix [] sub = is_empty sub
has_infix (c ∷ s) sub = let rest = has_infix s sub in if has_prefix (c ∷ s) sub then true else rest

unfoldable pub simple_column_format : Text → Text
unfolding has_infix
simple_column_format value =
    if has_infix value (codes "{{") then value else codes "{{." ++ value ++ codes "}}"

unfoldable pub append_tab_delim : Text → Text → Text
append_tab_delim buf value = if is_empty buf then value else buf ++ b'\t' ∷ value

-- The loop over the columns, a header and a value each; the lines so far are `header` and `row`.
unfoldable pub format_columns : List (Text × Text) → Text → Text → Text × Text
unfolding simple_column_format append_tab_delim
format_columns [] header row = (header ++ codes "\n", row ++ codes "\n")
format_columns ((name, value) ∷ values) header row =
    format_columns values (append_tab_delim header name) (
      if is_empty (simple_column_format value)
      then row
      else append_tab_delim row (simple_column_format value))

unfoldable pub simple_format : List (Text × Text) → Text × Text
unfolding format_columns
simple_format values = format_columns values [] []

unfoldable pub id_format : Text → List (Text × Text) → Text
unfolding simple_column_format
id_format id_column [] = []
id_format id_column ((name, value) ∷ values) =
    let rest = id_format id_column values in
    if name == id_column then simple_column_format value ++ codes "\n" else rest

-- WriterConfig
pub record Config : Type 0 where
  pub quiet : Bool
  pub no_trunc : Bool
  pub format : Text
  pub id_column : Text

unfoldable pub take : {A : Type 0} → ℕ → List A → List A
take zero xs = []
take (suc n) [] = []
take (suc n) (x ∷ xs) = x ∷ take n xs

-- The function `id` of a template
unfoldable pub id : Config → Text → Text
unfolding take
id config obj = if not config.no_trunc && not config.quiet then take 12 obj else obj

pub record Writer : Type 0 where
  pub closed : Bool
  pub header_format : Text
  pub value_format : Text
  pub error : Option Error
  pub header_printed : Bool
  pub tabbed : Bool

abbrev pub with_format : Text → Writer → Writer
with_format format t = if is_empty format || format == codes "raw" then t else record t {
  header_format = [];
  value_format =
      if format == codes "json" || (format == codes "jsoncompact" || format == codes "yaml")
      then format
      else format ++ codes "\n";
}

unfoldable pub new_writer : List (Text × Text) → Config → Writer
unfolding simple_format id_format
new_writer values config =
    let (header, row) = simple_format values in
    with_format config.format (record {
      closed = false;
      header_format = if config.quiet then [] else header;
      value_format = if config.quiet then id_format config.id_column values else row;
      error = none;
      header_printed = false;
      tabbed = not (config.format == codes "raw");
    })

-- What a template is executed on: the empty struct, an object, or the map of its fields with the object
-- as Typed.
pub data Data (O M : Type 0) : Type 0 where
  no_data : Data O M
  object : O → Data O M
  fields : M → O → Data O M

-- What a writer prints to and by: each operation on the output answers an error or none. A text that
-- is encoded comes with the error of its encoder.
pub record Output (S O M : Type 0) : Type 0 where
  pub put : Text → S → Option Error × S
  pub execute : Text → Data O M → S → Option Error × S
  pub flush : S → Option Error × S
  pub json : O → Text × Option Error
  pub json_compact : O → Text × Option Error
  pub json_to_yaml : Text → Text × Option Error
  pub encode_to_map : O → Option M

abbrev pub is_failed : Option Error → Bool
is_failed none = false
is_failed (some e) = true

module _ {S O M : Type 0} (out : Output S O M) where
  abbrev pub stored : Writer → Option Error × S → Writer × S
  stored t (e, s) = (record t { error = e }, s)

  unfoldable pub write_header : Writer → S → Writer × S
  write_header t s =
      if not (is_empty t.header_format) && not t.header_printed
      then stored (record t { header_printed = true }) (out.execute t.header_format no_data s)
      else (t, s)

  -- A text that is put unless its encoder has failed.
  abbrev pub put_encoded : Text → Option Error → S → Option Error × S
  put_encoded text none s = out.put text s
  put_encoded text (some e) s = (some e, s)

  -- The error of the first write is dropped.
  abbrev put_yaml : Text × Option Error → S → Option Error × S
  put_yaml (text, none) s = out.put (text ++ codes "\n") (out.put (codes "---\n") s).1
  put_yaml (text, some e) s = (some e, s)

  abbrev put_converted : Text × Option Error → S → Option Error × S
  put_converted (text, none) s = put_yaml (out.json_to_yaml text) s
  put_converted (text, some e) s = (some e, s)

  abbrev data_of : O → Option M → Data O M
  data_of obj none = object obj
  data_of obj (some m) = fields m obj

  -- The switch over the format of a value.
  abbrev pub put_value : Text → O → S → Option Error × S
  put_value format obj s =
      if format == codes "json"
      then put_encoded ((out.json obj).0 ++ codes "\n") (out.json obj).1 s
      else if format == codes "jsoncompact"
      then put_encoded (out.json_compact obj).0 (out.json_compact obj).1 s
      else if format == codes "yaml"
      then put_converted (out.json obj) s
      else out.execute format (data_of obj (out.encode_to_map obj)) s

  abbrev pub write_value : O → Writer × S → Writer × S
  write_value obj (t, s) =
      if is_failed t.error then (t, s) else stored t (put_value t.value_format obj s)

  unfoldable pub write : O → Writer → S → Writer × S
  write obj t s = if is_failed t.error then (t, s) else write_value obj (write_header t s)

  abbrev pub flushed : Writer → Option Error × S → Option Error × (Writer × S)
  flushed t (e, s) = (e, (record t { closed = true }, s))

  abbrev pub closing : Writer × S → Option Error × (Writer × S)
  closing (t, s) =
      if is_failed t.error
      then (t.error, (record t { closed = true }, s))
      else if t.tabbed
      then flushed t (out.flush s)
      else (none, (record t { closed = true }, s))

  unfoldable pub close : Writer → S → Option Error × (Writer × S)
  close t s =
      if t.closed || is_failed t.error then (t.error, (t, s)) else closing (write_header t s)

  -- A list of objects, as the commands write it.
  unfoldable pub write_all : List O → Writer → S → Writer × S
  write_all [] t s = (t, s)
  write_all (obj ∷ objs) t s = let (t', s') = write obj t s in write_all objs t' s'
