-- ===== src/Daemon/Containers.antt =====
-- The operations on existing containers, of pkg/daemon/container.go. A method that only reads takes
-- the world; one that calls the runtime returns the new one.
pub mod Lookup
pub mod Effects
use k3c.Prelude.{
  Bool, true, false, not, Option, none, some, List, [], ◌∷◌, ◌&&◌, ◌||◌, if◌then◌else◌,
}
use k3c.Prelude.Text.{Text, codes, is_empty, has_prefix, ◌==◌}
use k3c.Prelude.Int.{ℤ}
use k3c.Prelude.Results.{Error, Result, ok, err, panic, container_not_found, Exec, ◌>>=◌}
use k3c.Cri
use k3c.Cri.{ContainerConfig, PodConfig, PodSandbox}
use k3c.Api.{ExecOptions, AttachOptions, ContainerOptions}
use k3c.Core.{Pod, Container, ContainerStatus}
use k3c.Kicker.{Kicker, kick}
use k3c.Paths.{join}
use k3c.Daemon.Runtime.{Runtime, Deps, Reply, done, failed, of_reply, replied, StreamRequest}
use k3c.Daemon.Config.{get_pod_config, get_container_config}
use k3c.Daemon.Pods.{list_pods}

-- What GetContainer returns when it finds one.
pub record Found : Type 0 where
  pub pod : Pod
  pub container : Container
  pub id : Text

-- client.StreamResponse
pub record StreamResponse : Type 0 where
  pub url : Text
  pub tty : Bool
  pub stdin : Bool

abbrev pub matches : Text → ContainerStatus → Bool
matches name s = s.name == name || has_prefix s.container_id name

-- The three nested loops, innermost first.
unfoldable pub find_container : Pod → ContainerStatus → List Container → Option Found
find_container p s [] = none
find_container p s (c ∷ cs) =
    let rest = find_container p s cs in
    if c.name == s.name then some (record { pod = p; container = c; id = s.container_id }) else rest

abbrev or_next : Option Found → Option Found → Option Found
or_next (some f) rest = some f
or_next none rest = rest

unfoldable pub find_status : Text → Pod → List ContainerStatus → Option Found
find_status name p [] = none
find_status name p (s ∷ ss) =
    let rest = find_status name p ss in
    if matches name s then or_next (find_container p s p.spec.containers) rest else rest

unfoldable pub find_pod : Text → List Pod → Option Found
find_pod name [] = none
find_pod name (p ∷ ps) = or_next (find_status name p p.status.container_statuses) (find_pod name ps)

abbrev found_or_error : Option Found → Result Found
found_or_error none = err container_not_found
found_or_error (some f) = ok f

-- What LogContainer answers: a channel that is closed at once, or one that a goroutine fills from
-- the file.
pub data LogSource : Type 0 where
  closed : LogSource
  file : Text → LogSource

module _ (r : Runtime) (deps : Deps) where
  unfoldable pub get_container : Text → r.World → Result Found
  get_container name w = do pods ← list_pods r deps true w; found_or_error (find_pod name pods)

  -- A call that needs the container that a name stands for.
  abbrev pub with_container :
      {A : Type 0} → Result Found → (Found → Exec r.World A) → Exec r.World A
  with_container (ok f) call w = call f w
  with_container (err e) call w = (err e, w)
  with_container panic call w = (panic, w)

  unfoldable pub start_container : Text → Exec r.World (Unit {0})
  start_container name w =
      with_container (get_container name w) (λ f v. replied (r.start_container f.id v)) w

  unfoldable pub stop_container : Text → ℤ → Exec r.World (Unit {0})
  stop_container name timeout w =
      with_container (get_container name w) (λ f v. replied (r.stop_container f.id timeout v)) w

  -- The deferred kick comes on every path.
  unfoldable pub remove_container : Text → Kicker → r.World → Result (Unit {0}) × Kicker × r.World
  remove_container name k w =
      let (a, v) =
        with_container (get_container name w) (λ f v. replied (r.remove_container f.id v)) w in
      (a, kick k, v)

  abbrev exec_request : Text → List Text → ExecOptions → StreamRequest
  exec_request id cmd opts = record {
    container_id = id;
    cmd = cmd;
    tty = opts.tty;
    stdin = opts.stdin;
    stdout = true;
    stderr = not opts.tty;
  }

  abbrev pub stream_response :
      StreamRequest → Reply Text × r.World → Result StreamResponse × r.World
  stream_response q (done url, w) = (ok (record { url = url; tty = q.tty; stdin = q.stdin }), w)
  stream_response q (failed e, w) = (err e, w)

  abbrev no_exec_options : ExecOptions
  no_exec_options = record { tty = false; stdin = false }

  abbrev exec_options : Option ExecOptions → ExecOptions
  exec_options none = no_exec_options
  exec_options (some o) = o

  unfoldable pub exec : Text → List Text → Option ExecOptions → Exec r.World StreamResponse
  exec name cmd opts w =
      with_container (get_container name w)
        (λ f v. let q = exec_request f.id cmd (exec_options opts) in stream_response q (r.exec q v))
        w

  abbrev no_stdin : Option AttachOptions → Bool
  no_stdin none = false
  no_stdin (some o) = o.no_stdin

  abbrev attach_request : Found → Option AttachOptions → StreamRequest
  attach_request f opts = record {
    container_id = f.id;
    cmd = [];
    tty = f.container.tty;
    stdin = if no_stdin opts then false else f.container.stdin;
    stdout = true;
    stderr = not f.container.tty;
  }

  unfoldable pub attach : Text → Option AttachOptions → Exec r.World StreamResponse
  attach name opts w =
      with_container (get_container name w)
        (λ f v. let q = attach_request f opts in stream_response q (r.attach q v)) w

  abbrev log_path : PodConfig → ContainerConfig → LogSource
  log_path p c =
      if is_empty p.log_directory || is_empty c.log_path
      then closed
      else file (join p.log_directory c.log_path)

  abbrev log_of_pod : ContainerConfig → List PodSandbox → Result LogSource
  log_of_pod c (p ∷ []) = do config ← get_pod_config deps.codec p; ok (log_path config c)
  log_of_pod c _ = ok closed

  abbrev log_of_container : r.World → List Cri.Container → Result LogSource
  log_of_container w (x ∷ []) = do
    (config, _) ← get_container_config deps.codec x
    pods ← of_reply (r.list_pod_sandbox x.pod_sandbox_id w)
    log_of_pod config pods
  log_of_container w _ = ok closed

  unfoldable pub log_container : Text → r.World → Result LogSource
  log_container name w = do
    f ← get_container name w
    xs ← of_reply (r.list_containers f.id w)
    log_of_container w xs
