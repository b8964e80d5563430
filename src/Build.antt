-- ===== src/Build.antt =====
-- pkg/client/build: from the options of `build` to what buildkit is asked to solve. The parser of
-- image references, kvfile.ParseTypeAndKVMap, filepath.Dir, kv.Split, the session's providers and
-- buildkit itself are parameters.
pub mod Session
pub mod Attrs
pub mod Order
use k3c.Prelude.{
  Bool, true, false, not, ◌||◌, ◌&&◌, any, Option, none, some, List, [], ◌∷◌, ◌++◌, map,
  if◌then◌else◌,
}
use k3c.Prelude.Text.{Text, codes, is_empty, ◌==◌}
use k3c.Prelude.Maps.{Map, insert, get_or}
use k3c.Prelude.Results.{Error, Result, ok, err, panic, wrap, Exec, and_then, ◌>>=◌}
use k3c.Paths.{base}
use k3c.Remote.Interface.{Client}
use k3c.Build.Session.{Attachable, SessionLibraries, session}

-- ProgressStyle
pub data ProgressStyle : Type 0 where
  auto no_progress plain tty : ProgressStyle

pub record Opts : Type 0 where
  pub cache_from_images : List Text
  pub args : Map Text
  pub label : Map Text
  pub target : Text
  pub tag : List Text
  pub no_cache : Bool
  pub add_hosts : List Text
  pub secrets : List Text
  pub ssh : List Text
  pub dockerfile : Text
  pub progress : ProgressStyle
  pub output : Text
  pub pull : Bool

-- Where an export goes: nowhere but to the store, to standard output, to a file or to a directory.
pub data Destination : Type 0 where
  store : Destination
  stdout : Destination
  file : Text → Destination
  directory : Text → Destination

-- client.ExportEntry
pub record ExportEntry : Type 0 where
  pub kind : Text
  pub attrs : Map Text
  pub to : Destination

-- client.SolveOpt; a cache import is the reference of a registry.
pub record SolveOpt : Type 0 where
  pub session : List Attachable
  pub exports : List ExportEntry
  pub local_dirs : Map Text
  pub frontend : Text
  pub frontend_attrs : Map Text
  pub cache_imports : List Text

-- The csv Writer gives what it has passed on, and what it keeps until it is flushed. A map that is
-- ranged over is taken in the order of its list.
pub record Libraries : Type 0 where
  pub parse_docker_ref : Text → Result Text
  pub dir : Text → Text
  pub csv_write : List Text → Text × Text
  pub sessions : SessionLibraries
  pub display : ProgressStyle → Result (Unit {0})

abbrev default_attrs : Text → Map Text
default_attrs tag =
    if is_empty tag then [] else insert (codes "name-canonical") [] (insert (codes "name") tag [])

unfoldable pub default_exporter : Text → List ExportEntry
default_exporter tag = record { kind = codes "image"; attrs = default_attrs tag; to = store } ∷ []

unfoldable pub file_output : Text → Destination
file_output dest = file (if is_empty dest then codes "image.tar" else dest)

-- The last key that the loop meets.
abbrev local_entry : Map Text → Map Text → ExportEntry
local_entry attrs [] = record { kind = []; attrs = attrs; to = store }
local_entry attrs ((k, v) ∷ []) = record { kind = codes "local"; attrs = attrs; to = directory k }
local_entry attrs ((k, v) ∷ p ∷ m) = local_entry attrs (p ∷ m)

abbrev is_file_kind : Text → Bool
is_file_kind kind = kind == codes "docker" || (kind == codes "tar" || kind == codes "oci")

abbrev export_entry : Text → Map Text → ExportEntry
export_entry kind attrs =
    let dest = get_or [] (codes "dest") attrs in
    if is_empty kind
    then local_entry attrs attrs
    else if kind == codes "local"
    then record {
      kind = kind;
      attrs = attrs;
      to = directory (if is_empty dest then codes "./output" else dest);
    }
    else if is_file_kind kind
    then record { kind = kind; attrs = attrs; to = file_output dest }
    else record { kind = kind; attrs = attrs; to = store }

abbrev or_default : Text → ExportEntry → List ExportEntry
or_default tag e = if is_empty e.kind then default_exporter tag else e ∷ []

-- The loop over the images, after those in `seen`.
unfoldable pub cache_imports : List Text → List Text → List Text
cache_imports seen [] = []
cache_imports seen (s ∷ images) =
    let rest = cache_imports (s ∷ seen) images in
    if any (λ x. x == s) seen then cache_imports seen images else s ∷ rest

-- result[prefix + k] = v
unfoldable pub insert_all : Text → Map Text → Map Text → Map Text
insert_all prefix [] m = m
insert_all prefix ((k, v) ∷ attrs) m = insert_all prefix attrs (insert (prefix ++ k) v m)

abbrev pub with_hosts : Text → Map Text → Map Text
with_hosts hosts m = if is_empty hosts then m else insert (codes "add-hosts") hosts m

abbrev pub with_pull : Bool → Map Text → Map Text
with_pull pull m = if pull then insert (codes "image-resolve-mode") (codes "pull") m else m

module _ (libs : Libraries) where
  unfoldable pub local_dirs : Opts → Text → Map Text
  local_dirs o context_dir =
      insert (codes "dockerfile")
        (if is_empty o.dockerfile then context_dir else libs.dir o.dockerfile)
        (insert (codes "context") context_dir [])

  -- An output that cannot be parsed is logged.
  abbrev parsed_export : Text → Result (Text × Map Text) → List ExportEntry
  parsed_export tag (ok (kind, attrs)) = or_default tag (export_entry kind attrs)
  parsed_export tag (err e) = default_exporter tag
  parsed_export tag panic = default_exporter tag

  unfoldable pub exports : Opts → Text → List ExportEntry
  unfolding default_exporter file_output
  exports o tag =
      if is_empty o.output
      then default_exporter tag
      else if o.output == codes "-"
      then record { kind = codes "tar"; attrs = []; to = stdout } ∷ []
      else parsed_export tag (libs.sessions.parse_type_and_kv_map o.output)

  -- The writer is never flushed.
  unfoldable pub to_csv : List Text → Text
  to_csv items = (libs.csv_write items).0

  unfoldable pub frontend_attrs : Opts → Map Text
  unfolding insert_all to_csv
  frontend_attrs o = with_pull o.pull (
      insert (codes "filename")
        (if is_empty o.dockerfile then codes "Dockerfile" else base o.dockerfile)
        (with_hosts (to_csv o.add_hosts) (
          insert_all (codes "label:") o.label
            (insert_all (codes "build-arg:") o.args (insert (codes "target") o.target [])))))

  abbrev first_tag : List Text → Result Text
  first_tag [] = ok []
  first_tag (t ∷ ts) =
      if is_empty t then ok [] else wrap (codes "parsing " ++ t) (libs.parse_docker_ref t)

  abbrev solve_opt : Text → Opts → Text → List Attachable → SolveOpt
  solve_opt context_dir o tag s = record {
    session = s;
    exports = exports o tag;
    local_dirs = local_dirs o context_dir;
    frontend = codes "dockerfile.v0";
    frontend_attrs = frontend_attrs o;
    cache_imports = cache_imports [] o.cache_from_images;
  }

  module _ {W : Type 0} (cl : Client W) (solve : SolveOpt → Exec W (Map Text)) where
    abbrev with_digest : Text → Result (Unit {0}) × W → Result Text × W
    with_digest digest (ok _, w) = (ok digest, w)
    with_digest digest (err e, w) = (err e, w)
    with_digest digest (panic, w) = (panic, w)

    -- The tags after the first are added by the daemon.
    abbrev tag_others : List Text → Text → Exec W Text
    tag_others (t ∷ u ∷ us) digest w = with_digest digest (cl.tag_image t (u ∷ us) w)
    tag_others _ digest w = (ok digest, w)

    -- The display of the progress ends after the solver.
    unfoldable pub build : Text → Opts → Exec W Text
    unfolding exports local_dirs frontend_attrs cache_imports
    build context_dir o w =
        and_then (first_tag o.tag, w)
          (λ tag w1.
            and_then (session libs.sessions o.secrets o.ssh, w1)
              (λ s w2. and_then (solve (solve_opt context_dir o tag s) w2) (λ resp w3.
                and_then (libs.display o.progress, w3)
                  (λ _ w4. tag_others o.tag (get_or [] (codes "containerimage.digest") resp) w4))))
