-- ===== src/Tests/Programs.antt =====
-- The commands, the builder's options and the tables on concrete inputs.
use k3c.Prelude.{
  ◌≡◌, refl, arith, Bool, true, false, Option, none, some, List, [], ◌∷◌, ◌++◌, length, eqb,
  if◌then◌else◌,
}
use k3c.Prelude.Text.{Text, eq_iff, codes, ◌==◌, has_prefix, strip_prefix}
use k3c.Prelude.Maps.{Map, lookup, NodupKeys}
use k3c.Prelude.Int.{pos}
use k3c.Prelude.Results.{Error, Result, ok, err, other, and_then, message}
use k3c.Remote.Interface.{Client}
use k3c.Commands.Create.{create}
use k3c.Commands.Rmi
use k3c.Commands.Containers.{printed, complained, rm, volume_rm, stop, start, run, exit_1}
use k3c.Commands.Containers.Laws.{OnlyStarted, run-starts}
use k3c.Commands.Containers.Loops.{DoesEach, told, each, all_ok, after_starts, loops-each}
use k3c.Commands.Lists.{receives, cancelled, event_loop}
use k3c.Build.{Opts, auto, Libraries, frontend_attrs, cache_imports}
use k3c.Build.Order.{SameMap, go_map, frontend_attrs-order}
use k3c.Build.Attrs.{frontend_attrs_lem}
use k3c.CliBuilder.{
  Field, slice_kind, embedded, embedded_other, field, end, and, command, flags_of, flag_of, fields,
  name, dashed, split_at, slice_value, assign_slice,
}
use k3c.Table.{
  take, Config, Output, new_writer, simple_format, format_columns, simple_column_format, has_infix,
  append_tab_delim,
}
use k3c.Table.Laws.{listed, table, listed-table}
use k3c.Tests.Clients.{idle}
use k3c.Tests.Commands.{web_flags, test_libraries}

abbrev attached : Bool → Bool → Text → Result (Unit {0})
attached stdin tty url = ok tt

-- A client over the containers that are made and those that run.
abbrev two_lists : Client (List Text × List Text)
two_lists = record (idle (List Text × List Text)) {
  get_image = λ image w.
      (ok (record { id = codes "i"; tags = []; digests = codes "b@d" ∷ []; size = 1 }), w);
  pull_image = λ image auth w. (ok image, w);
  create_pod = λ name opts w. (ok (codes "p1"), w);
  create_container = λ pod_id image opts w. (ok (codes "c1"), (codes "c1" ∷ w.0, w.1));
  start_container = λ id w. (ok tt, (w.0, id ∷ w.1));
  stop_container = λ id time w. (err (other (codes "not running")), w);
  remove_container =
      λ id w. if id == codes "c2" then (err (other (codes "no")), w) else (ok tt, (id ∷ w.0, w.1));
  remove_volume = λ name force w. (ok tt, w);
  remove_image = λ image w. (ok tt, w);
  attach = λ name opts w. (ok (record { url = []; tty = true; stdin = true }), w);
}

abbrev nothing_runs : List Text × List Text → Bool
nothing_runs w = eqb (length w.1) 0

two_lists-OnlyStarted : OnlyStarted two_lists nothing_runs
two_lists-OnlyStarted = record {
  get_image = λ image w. refl;
  pull_image = λ image auth w. refl;
  create_pod = λ name opts w. refl;
  create_container = λ pod_id image opts w. refl;
  attach = λ name opts w. refl;
}

run-starts_example :
    (nothing_runs
        (run two_lists attached test_libraries false web_flags (codes "busybox" ∷ []) ([], [])).1
      ≡ true)
    × (run two_lists attached test_libraries true web_flags (codes "busybox" ∷ []) ([], [])
        ≡ and_then
            (create two_lists test_libraries web_flags (codes "busybox" ∷ []) false ([], []))
            two_lists.start_container)
run-starts_example =
    run-starts nothing_runs two_lists test_libraries two_lists-OnlyStarted attached web_flags
      (codes "busybox" ∷ []) ([], [])

loops-each_example :
    DoesEach
      (λ name w.
        two_lists.remove_container name
          (if true then (two_lists.stop_container name (pos 0) w).1 else w))
      (λ names w. told (rm two_lists true names w))
    × DoesEach
        (λ name. two_lists.remove_volume name true)
        (λ names w. told (volume_rm two_lists true names w))
    × DoesEach
        (λ id. two_lists.stop_container id (pos 10))
        (λ ids w. told (stop two_lists (pos 10) ids w))
    × ((attach interactive : Bool) (ids : List Text) (w : List Text × List Text)
        → start two_lists attached attach interactive ids w ≡ (
            let (results, w1) = each two_lists.start_container ids w in
            if all_ok results
            then after_starts two_lists attached attach interactive ids w1
            else (err exit_1, w1)))
    × DoesEach (Rmi.remove_image two_lists) (Rmi.remove_images two_lists)
loops-each_example = loops-each two_lists true (pos 10) attached

-- A container that cannot be removed does not keep `rm` from the others.
rm_goes_on : rm two_lists false (codes "c1" ∷ codes "c2" ∷ codes "c3" ∷ []) ([], []) ≡ (
  record {
    success = false;
    lines =
        printed (codes "c1")
        ∷ complained (other (codes "no")) (codes "c2")
        ∷ printed (codes "c3")
        ∷ [];
  },
  (codes "c3" ∷ codes "c1" ∷ [], []),
)
unfolding rm ◌==◌
rm_goes_on = refl

-- `events` ends at the first event without printing it, and prints empty ones when the channel is closed.
events_end :
    event_loop (receives (some (record { id = codes "1"; name = codes "task.start" })) ∷ [])
    ≡ ([], some (ok tt))
unfolding event_loop
events_end = refl

events_spin : event_loop (receives none ∷ receives none ∷ cancelled ∷ []) ≡ (
  record { id = []; name = [] } ∷ record { id = []; name = [] } ∷ [],
  some (err (message (codes "context canceled"))),
)
unfolding event_loop
events_spin = refl

abbrev test_build : Libraries
test_build = record {
  parse_docker_ref = λ t. ok t;
  dir = λ t. codes ".";
  csv_write = λ items. ([], codes "host:1.2.3.4");
  sessions = record {
    parse_type_and_kv_map = λ t. ok ([], []);
    kv_split = λ t sep. (t, []);
    trim_space = λ t. t;
    new_file_store = λ sources. ok tt;
    new_ssh_agent_provider = λ agents. ok tt;
  };
  display = λ style. ok tt;
}

abbrev test_opts : Opts
test_opts = record {
  cache_from_images = codes "a" ∷ codes "b" ∷ codes "a" ∷ [];
  args = (codes "v", codes "1") ∷ (codes "w", codes "2") ∷ [];
  label = (codes "l", codes "x") ∷ [];
  target = codes "base";
  tag = codes "t" ∷ [];
  no_cache = true;
  add_hosts = codes "host:1.2.3.4" ∷ [];
  secrets = [];
  ssh = [];
  dockerfile = [];
  progress = auto;
  output = [];
  pull = true;
}

test_args-NodupKeys : NodupKeys test_opts.args
unfolding lookup ◌==◌
test_args-NodupKeys = (refl, (refl, tt))

test_label-NodupKeys : NodupKeys test_opts.label
unfolding lookup
test_label-NodupKeys = (refl, tt)

frontend_attrs_lem_example :
    ((k : Text)
      → (lookup (codes "build-arg:" ++ k) (frontend_attrs test_build test_opts)
          ≡ lookup k test_opts.args)
        × (lookup (codes "label:" ++ k) (frontend_attrs test_build test_opts)
            ≡ lookup k test_opts.label))
    × (lookup (codes "target") (frontend_attrs test_build test_opts) ≡ some (codes "base"))
    × (lookup (codes "filename") (frontend_attrs test_build test_opts) ≡ some (codes "Dockerfile"))
    × (lookup (codes "add-hosts") (frontend_attrs test_build test_opts) ≡ none)
frontend_attrs_lem_example =
    frontend_attrs_lem test_build test_opts test_args-NodupKeys test_label-NodupKeys

-- The two arguments in the other order.
abbrev swapped_args : Map Text
swapped_args = (codes "w", codes "2") ∷ (codes "v", codes "1") ∷ []

swapped_args-NodupKeys : NodupKeys swapped_args
unfolding lookup ◌==◌
swapped_args-NodupKeys = (refl, (refl, tt))

swapped_args-SameMap : SameMap test_opts.args swapped_args
unfolding lookup
swapped_args-SameMap k = ground (arith, eq_iff (codes "v") k, eq_iff (codes "w") k)

frontend_attrs-order_example :
    go_map (frontend_attrs test_build test_opts)
    ≡ go_map (frontend_attrs test_build (record test_opts { args = swapped_args }))
frontend_attrs-order_example =
    frontend_attrs-order test_build test_opts swapped_args test_opts.label test_args-NodupKeys
      swapped_args-NodupKeys test_label-NodupKeys test_label-NodupKeys swapped_args-SameMap
      (λ k. refl)

imported_once : cache_imports [] test_opts.cache_from_images ≡ codes "a" ∷ codes "b" ∷ []
unfolding cache_imports ◌==◌
imported_once = refl

-- An output that is a list of texts and takes three of them; a template prints itself.
abbrev take_three : Text → List Text → Option Error × List Text
take_three t s = if eqb (length s) 3 then (some (other (codes "full")), s) else (none, s ++ t ∷ [])

abbrev test_output : Output (List Text) Text (Unit {0})
test_output = record {
  put = take_three;
  execute = λ t d s. take_three t s;
  flush = take_three (codes "flush");
  json = λ obj. (obj, none);
  json_compact = λ obj. (obj, none);
  json_to_yaml = λ t. (t, none);
  encode_to_map = λ obj. none;
}

abbrev two_columns : List (Text × Text)
two_columns = (codes "VOLUME NAME", codes "Volume.ID") ∷ (codes "SIZE", codes "Size") ∷ []

abbrev plain_config : Config
plain_config = record {
  quiet = false;
  no_trunc = false;
  format = [];
  id_column = codes "VOLUME NAME";
}

listed-table_example :
    listed test_output (codes "a" ∷ codes "b" ∷ []) (new_writer two_columns plain_config, [])
    ≡ table test_output (new_writer two_columns plain_config) (codes "a" ∷ codes "b" ∷ []) []
listed-table_example =
    listed-table test_output two_columns plain_config (codes "a" ∷ codes "b" ∷ []) []

columns :
    simple_format two_columns ≡ (codes "VOLUME NAME\tSIZE\n", codes "{{.Volume.ID}}\t{{.Size}}\n")
unfolding simple_format format_columns simple_column_format has_infix append_tab_delim has_prefix
    strip_prefix
columns = refl

abbrev volume_field : Field
volume_field = record {
  name = codes "V_VolumeName";
  tag_name = [];
  usage = codes "Bind mount a volume";
  env = [];
  default = [];
  kind = slice_kind;
}

-- A field in an embedded struct: its flag is called by the last word of its name, and by the first.
one_flag :
    command (λ t. none) (and embedded_other (and (embedded (and (field volume_field) end)) end))
    ≡ ok (
        record {
          name = codes "volume-name";
          aliases = codes "v" ∷ [];
          usage = codes "Bind mount a volume ";
          env = [];
          value = slice_value;
        }
        ∷ [])
unfolding command flags_of flag_of fields name dashed split_at
one_flag = refl

half_of_the_values : assign_slice (codes "a" ∷ codes "b" ∷ []) ≡ codes "a" ∷ []
unfolding assign_slice take
half_of_the_values = refl
