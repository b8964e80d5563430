-- ===== src/Commands/Containers.antt =====
-- The commands on containers: rm, start, stop, attach, exec, run, logs and volume rm (cmd). What a
-- command prints is a list of lines, and the exit status an error. The terminal's streams and the
-- parser of times are parameters. The client of a command is the one over gRPC, which never panics.
pub mod Laws
pub mod Loops
use k3c.Prelude.{
  ℕ, Bool, true, false, not, ◌&&◌, Option, none, some, List, [], ◌∷◌, ◌++◌, if◌then◌else◌,
}
use k3c.Prelude.Text.{Text, codes, is_empty}
use k3c.Prelude.Int.{ℤ, pos, is_positive}
use k3c.Prelude.Results.{Error, Result, ok, err, panic, message, wrap, Exec, and_then, ◌>>=◌}
use k3c.Api.{AttachOptions, ExecOptions}
use k3c.Daemon.Containers.{StreamResponse}
use k3c.Remote.Interface.{Client, Channel, nil, yields, Entry, LogOptions}
use k3c.Commands.Create.{Flags, Libraries, create}

-- A line of the output: the name of what was done, or an error with the name.
pub data Line : Type 0 where
  printed : Text → Line
  complained : Error → Text → Line

-- cli.Exit("", 1)
abbrev pub exit_1 : Error
exit_1 = message []

-- What a loop over arguments ends with: whether all went well, and the lines.
pub record Report : Type 0 where
  pub success : Bool
  pub lines : List Line

abbrev pub exit_of : Report → Result (Unit {0})
exit_of r = if r.success then ok tt else err exit_1

abbrev pub noted : Text → Result (Unit {0}) → Report → Report
noted name (ok _) rest = record { success = rest.success; lines = printed name ∷ rest.lines }
noted name (err e) rest = record { success = false; lines = complained e name ∷ rest.lines }
noted name panic rest = record { success = false; lines = rest.lines }

-- `start` and `stop` print errors alone.
abbrev pub noted_error : Text → Result (Unit {0}) → Report → Report
noted_error name (ok _) rest = rest
noted_error name (err e) rest = record { success = false; lines = complained e name ∷ rest.lines }
noted_error name panic rest = record { success = false; lines = rest.lines }

module _ {W : Type 0} (cl : Client W) where
  -- The error of the stop is ignored.
  abbrev pub remove_one : Bool → Text → Exec W (Unit {0})
  remove_one force name w =
      cl.remove_container name (if force then (cl.stop_container name (pos 0) w).1 else w)

  unfoldable pub rm : Bool → List Text → W → Report × W
  rm force [] w = (record { success = true; lines = [] }, w)
  rm force (name ∷ names) w =
      let (r, w1) = remove_one force name w in
      let (rest, w2) = rm force names w1 in (noted name r rest, w2)

  unfoldable pub volume_rm : Bool → List Text → W → Report × W
  volume_rm force [] w = (record { success = true; lines = [] }, w)
  volume_rm force (name ∷ names) w =
      let (r, w1) = cl.remove_volume name force w in
      let (rest, w2) = volume_rm force names w1 in (noted name r rest, w2)

  unfoldable pub stop : ℤ → List Text → W → Report × W
  stop time [] w = (record { success = true; lines = [] }, w)
  stop time (id ∷ ids) w =
      let (r, w1) = cl.stop_container id time w in
      let (rest, w2) = stop time ids w1 in (noted_error id r rest, w2)

  unfoldable pub start_all : List Text → W → Report × W
  start_all [] w = (record { success = true; lines = [] }, w)
  start_all (id ∷ ids) w =
      let (r, w1) = cl.start_container id w in
      let (rest, w2) = start_all ids w1 in (noted_error id r rest, w2)

  -- `stream` is stream.Stream: stdin, tty and the address.
  module _ (stream : Bool → Bool → Text → Result (Unit {0})) where
    abbrev pub streamed : StreamResponse → W → Result (Unit {0}) × W
    streamed r w = (stream r.stdin r.tty r.url, w)

    unfoldable pub run_attach : Text → Option AttachOptions → Exec W (Unit {0})
    run_attach id opts w = and_then (cl.attach id opts w) streamed

    unfoldable pub exec : Bool → Bool → Text → List Text → Exec W (Unit {0})
    exec interactive tty name cmd w =
        and_then (cl.exec name cmd (some (record { tty = tty; stdin = interactive })) w) streamed

    abbrev attach_first : Bool → Bool → List Text → Exec W (Unit {0})
    attach_first true interactive (id ∷ ids) w =
        run_attach id (some (record { no_stdin = not interactive })) w
    attach_first _ interactive _ w = (ok tt, w)

    unfoldable pub start : Bool → Bool → List Text → Exec W (Unit {0})
    unfolding start_all run_attach
    start attach interactive ids w =
        let (report, w1) = start_all ids w in
        and_then (exit_of report, w1) (λ _ w2. attach_first attach interactive ids w2)

    abbrev pub run_created : Bool → Text → Exec W (Unit {0})
    run_created true id w = cl.start_container id w
    run_created false id w = run_attach id none w

    unfoldable pub run : Libraries → Bool → Flags → List Text → Exec W (Unit {0})
    unfolding run_attach
    run libs detach c args w =
        and_then (create cl libs c args (not detach && c.interactive) w) (run_created detach)

  abbrev written : Channel Entry → Option (List (Bool × List ℕ))
  written nil = none
  written (yields es) = some (outputs es)
    where
      outputs : List Entry → List (Bool × List ℕ)
      outputs [] = []
      outputs (e ∷ es) = (e.stderr, e.message) ∷ outputs es

  abbrev tail_lines : ℤ → Option ℤ
  tail_lines tail = if is_positive tail then some tail else none

  abbrev since_time : (Text → Result ℤ) → Text → Result (Option ℤ)
  since_time parse_time since =
      if is_empty since
      then ok none
      else (wrap (codes "parsing " ++ since) (parse_time since) >>= λ t. ok (some t))

  -- What is written to stderr or stdout; none where the channel never ends.
  unfoldable pub logs :
      (Text → Result ℤ) → Bool → Text → ℤ → Bool → Text → Exec W (Option (List (Bool × List ℕ)))
  logs parse_time follow since tail timestamps name w =
      and_then (since_time parse_time since, w)
        (λ t w1.
          and_then
            (cl.log_container name
              (some (record {
                follow = follow;
                since_time = t;
                timestamps = timestamps;
                tail_lines = tail_lines tail;
              }))
              w1)
            (λ c w2. (ok (written c), w2)))
