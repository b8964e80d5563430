-- ===== src/Commands/Build.antt =====
-- The command build (cmd/build): its flags become the options of a build, and a Dockerfile that is
-- read from standard input is kept in a temporary directory meanwhile. The file system and the
-- builder are parameters.
pub mod Cleanup
use k3c.Prelude.{Bool, true, false, not, ◌&&◌, Option, none, some, List, [], ◌∷◌, if◌then◌else◌}
use k3c.Prelude.Text.{Text, codes, ◌==◌}
use k3c.Prelude.Maps.{Map}
use k3c.Prelude.Results.{Result, ok, err, panic, wrap, Exec, and_then, ◌>>=◌}
use k3c.Paths.{join}
use k3c.Build.{Opts, ProgressStyle, auto, no_progress, plain, tty}
use k3c.Commands.Images.{n_args, first_arg}

pub record Flags : Type 0 where
  pub add_host : List Text
  pub build_arg : List Text
  pub cache_from : List Text
  pub file : Text
  pub label : List Text
  pub no_cache : Bool
  pub output : Text
  pub progress : Text
  pub quiet : Bool
  pub secret : List Text
  pub tag : List Text
  pub target : Text
  pub ssh : List Text
  pub pull : Bool

-- What the command does outside: ReadAll of standard input, TempDir, WriteFile, RemoveAll, the
-- connection that NewBuilder makes and Close ends, and the Build of its client.
pub record System (W : Type 0) : Type 0 where
  pub read_stdin : Exec W Text
  pub temp_dir : Text → Exec W Text
  pub write_file : Text → Text → Exec W (Unit {0})
  pub remove_all : Text → Exec W (Unit {0})
  pub connect : Exec W (Unit {0})
  pub disconnect : Exec W (Unit {0})
  pub build : Text → Opts → Exec W Text

-- A style that is none of these is treated as auto.
abbrev style_of : Text → ProgressStyle
style_of style =
    if style == codes "none"
    then no_progress
    else if style == codes "plain"
    then plain
    else if style == codes "tty"
    then tty
    else auto

unfoldable pub to_opts : (List Text → Result (Map Text)) → Flags → Result Opts
to_opts read_kv_map b = do
  args ← wrap (codes "parsing build-arg") (read_kv_map b.build_arg)
  labels ← wrap (codes "parsing label") (read_kv_map b.label)
  ok (record {
    cache_from_images = b.cache_from;
    args = args;
    label = labels;
    target = b.target;
    tag = b.tag;
    no_cache = b.no_cache;
    add_hosts = b.add_host;
    secrets = b.secret;
    ssh = b.ssh;
    dockerfile = b.file;
    progress = if b.quiet then no_progress else style_of b.progress;
    output = b.output;
    pull = b.pull;
  })

-- The Dockerfile, the context, and the directory that is to be removed, if there is one.
pub record Content : Type 0 where
  pub dockerfile : Text
  pub context_dir : Text
  pub cleanup : Option Text

module _ {W : Type 0} (s : System W) where
  abbrev kept_in : Text → Text → Content
  kept_in context_dir dir = record {
    dockerfile = join dir (codes "Dockerfile");
    context_dir = if context_dir == codes "-" then dir else context_dir;
    cleanup = some dir;
  }

  unfoldable pub read_stdin_content : Text → Text → Exec W Content
  unfolding join
  read_stdin_content dockerfile context_dir w =
      if not (dockerfile == codes "-") && not (context_dir == codes "-")
      then (ok (record { dockerfile = dockerfile; context_dir = context_dir; cleanup = none }), w)
      else and_then (s.read_stdin w) (λ bytes w1.
        and_then (s.temp_dir (codes "k3c-build") w1) (λ dir w2.
          and_then (s.write_file (join dir (codes "Dockerfile")) bytes w2)
            (λ _ w3. (ok (kept_in context_dir dir), w3))))

  -- dirCleanup.Close
  unfoldable pub clean_up : Option Text → Exec W (Unit {0})
  clean_up none w = (ok tt, w)
  clean_up (some dir) w = s.remove_all dir w

  -- A deferred call, whose error is dropped.
  abbrev pub deferred {ℓ} : {A : Type ℓ} → Exec W (Unit {0}) → Result A × W → Result A × W
  deferred last (result, w) = (result, (last w).1)

  abbrev pub build_from : Opts → Result Content × W → Result Text × W
  build_from o (ok c, w) =
      deferred (clean_up c.cleanup)
        (s.build c.context_dir (record o { dockerfile = c.dockerfile }) w)
  build_from o (err e, w) = (err e, w)
  build_from o (panic, w) = (panic, w)

  abbrev pub connected : List Text → Opts → Exec W Text
  connected args o w =
      deferred s.disconnect (build_from o (read_stdin_content o.dockerfile (first_arg args) w))

  -- The digest is printed where it is not empty.
  unfoldable pub run : (List Text → Result (Map Text)) → Flags → List Text → Exec W Text
  unfolding n_args to_opts read_stdin_content clean_up
  run read_kv_map b args w =
      and_then (n_args (codes "build") 1 (some 1) args >>= λ _. to_opts read_kv_map b, w)
        (λ o w1. and_then (s.connect w1) (λ _ w2. connected args o w2))
