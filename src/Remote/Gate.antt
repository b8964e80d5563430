-- ===== src/Remote/Gate.antt =====
-- pkg/remote/server/wrapper.go: the handlers that gRPC calls. Each one answers an error until the
-- server is initialised, and otherwise calls the service. Log messages are left out, and ToGRPC of
-- containerd's errdefs is a parameter.
use k3c.Prelude.{Bool, Option, List, [], if◌then◌else◌}
use k3c.Prelude.Text.{Text, codes}
use k3c.Prelude.Results.{Error, Result, ok, err, panic, message, Exec}
use k3c.Core.{Pod}
use k3c.Remote.Interface.{Client}
use k3c.Remote.Messages.{
  CreatePodRequest, CreateContainerRequest, StopContainerRequest, LogContainerRequest,
  AttachRequest, ExecRequest, ImageRequest, TagImageRequest, RemoveVolumeRequest,
  GetContainerResponse, StreamMessage, ImageMessage, VolumeMessage, LogMessage, EventMessage,
  InfoMessage,
}
use k3c.Remote.Server
use k3c.Remote.Server.{Sends, Streamed, ended, never_ends}

-- The server's own state, and the daemon's.
pub record Served (W : Type 0) : Type 0 where
  pub initialized : Bool
  pub daemon : W

-- SetInitialized
unfoldable pub set_initialized : {W : Type 0} → Bool → Served W → Served W
set_initialized initialized s = record s { initialized = initialized }

abbrev pub not_initialized : Error
not_initialized = message (codes "server is not initialized yet")

unfoldable pub check_initialized : {W : Type 0} → Served W → Result (Unit {0})
check_initialized s = if s.initialized then ok tt else err not_initialized

abbrev pub mapped : {A : Type 0} → (Error → Error) → Result A → Result A
mapped to_grpc (ok a) = ok a
mapped to_grpc (err e) = err (to_grpc e)
mapped to_grpc panic = panic

abbrev pub mapped_stream : {A : Type 0} → (Error → Error) → Streamed A → Streamed A
mapped_stream to_grpc (ended ms r) = ended ms (mapped to_grpc r)
mapped_stream to_grpc never_ends = never_ends

-- What every handler does around its call, past the check and without it.
abbrev pub handled :
    {W A : Type 0} → Result (Unit {0}) → (Error → Error) → Exec W A → Served W → Result A × Served W
handled (ok _) to_grpc call s =
    let (a, w) = call s.daemon in (mapped to_grpc a, record s { daemon = w })
handled (err e) to_grpc call s = (err e, s)
handled panic to_grpc call s = (panic, s)

abbrev pub handled_stream :
    {W A : Type 0}
    → Result (Unit {0})
    → (Error → Error)
    → (W → Streamed A × W)
    → Served W
    → Streamed A × Served W
handled_stream (ok _) to_grpc call s =
    let (a, w) = call s.daemon in (mapped_stream to_grpc a, record s { daemon = w })
handled_stream (err e) to_grpc call s = (ended [] (err e), s)
handled_stream panic to_grpc call s = (ended [] panic, s)

module _ {W : Type 0} (to_grpc : Error → Error) (c : Client W) where
  unfoldable pub list_pods : Unit {0} → Exec (Served W) (List Pod)
  unfolding check_initialized
  list_pods req s = handled (check_initialized s) to_grpc (Server.list_pods c req) s

  unfoldable pub create_pod : CreatePodRequest → Exec (Served W) Text
  unfolding check_initialized
  create_pod req s = handled (check_initialized s) to_grpc (Server.create_pod c req) s

  unfoldable pub attach : AttachRequest → Exec (Served W) StreamMessage
  unfolding check_initialized
  attach req s = handled (check_initialized s) to_grpc (Server.attach c req) s

  unfoldable pub exec : ExecRequest → Exec (Served W) StreamMessage
  unfolding check_initialized
  exec req s = handled (check_initialized s) to_grpc (Server.exec c req) s

  unfoldable pub create_container : CreateContainerRequest → Exec (Served W) Text
  unfolding check_initialized
  create_container req s = handled (check_initialized s) to_grpc (Server.create_container c req) s

  unfoldable pub start_container : Text → Exec (Served W) (Unit {0})
  unfolding check_initialized
  start_container req s = handled (check_initialized s) to_grpc (Server.start_container c req) s

  unfoldable pub stop_container : StopContainerRequest → Exec (Served W) (Unit {0})
  unfolding check_initialized
  stop_container req s = handled (check_initialized s) to_grpc (Server.stop_container c req) s

  unfoldable pub remove_container : Text → Exec (Served W) (Unit {0})
  unfolding check_initialized
  remove_container req s = handled (check_initialized s) to_grpc (Server.remove_container c req) s

  unfoldable pub get_container : Text → Exec (Served W) GetContainerResponse
  unfolding check_initialized
  get_container req s = handled (check_initialized s) to_grpc (Server.get_container c req) s

  unfoldable pub log_container :
      Sends → LogContainerRequest → Served W → Streamed LogMessage × Served W
  unfolding check_initialized
  log_container sends req s =
      handled_stream (check_initialized s) to_grpc (Server.log_container c sends req) s

  unfoldable pub list_images : Unit {0} → Exec (Served W) (List ImageMessage)
  unfolding check_initialized
  list_images req s = handled (check_initialized s) to_grpc (Server.list_images c req) s

  unfoldable pub remove_image : Text → Exec (Served W) (Unit {0})
  unfolding check_initialized
  remove_image req s = handled (check_initialized s) to_grpc (Server.remove_image c req) s

  unfoldable pub pull_image : ImageRequest → Exec (Served W) Text
  unfolding check_initialized
  pull_image req s = handled (check_initialized s) to_grpc (Server.pull_image c req) s

  unfoldable pub push_image : ImageRequest → Exec (Served W) (Unit {0})
  unfolding check_initialized
  push_image req s = handled (check_initialized s) to_grpc (Server.push_image c req) s

  unfoldable pub get_image : Text → Exec (Served W) (Option ImageMessage)
  unfolding check_initialized
  get_image req s = handled (check_initialized s) to_grpc (Server.get_image c req) s

  unfoldable pub tag_image : TagImageRequest → Exec (Served W) (Unit {0})
  unfolding check_initialized
  tag_image req s = handled (check_initialized s) to_grpc (Server.tag_image c req) s

  unfoldable pub pull_progress : Sends → Text → Served W → Streamed (List InfoMessage) × Served W
  unfolding check_initialized
  pull_progress sends req s =
      handled_stream (check_initialized s) to_grpc (Server.pull_progress c sends req) s

  unfoldable pub push_progress : Sends → Text → Served W → Streamed (List InfoMessage) × Served W
  unfolding check_initialized
  push_progress sends req s =
      handled_stream (check_initialized s) to_grpc (Server.push_progress c sends req) s

  unfoldable pub list_volumes : Unit {0} → Exec (Served W) (List VolumeMessage)
  unfolding check_initialized
  list_volumes req s = handled (check_initialized s) to_grpc (Server.list_volumes c req) s

  unfoldable pub create_volume : Text → Exec (Served W) VolumeMessage
  unfolding check_initialized
  create_volume req s = handled (check_initialized s) to_grpc (Server.create_volume c req) s

  unfoldable pub remove_volume : RemoveVolumeRequest → Exec (Served W) (Unit {0})
  unfolding check_initialized
  remove_volume req s = handled (check_initialized s) to_grpc (Server.remove_volume c req) s

  unfoldable pub events : Sends → Unit {0} → Served W → Streamed EventMessage × Served W
  unfolding check_initialized
  events sends req s = handled_stream (check_initialized s) to_grpc (Server.events c sends req) s
