-- ===== src/Remote/Server.antt =====
-- pkg/remote/server/container_service.go: each method calls the daemon and makes a message of what
-- it answers. A Send on a stream is a parameter: the error of the nth one.
use k3c.Prelude.{ℕ, ◌+◌, Option, none, some, List, [], ◌∷◌, map}
use k3c.Prelude.Text.{Text}
use k3c.Prelude.Int.{to_int64}
use k3c.Prelude.Results.{
  Error, Result, ok, err, panic, container_not_found, image_not_found, wrapped, message, other,
  Exec,
}
use k3c.Core.{Pod}
use k3c.PushStatus.{Info}
use k3c.Daemon.Images.{Image, AuthConfig, CriAuth}
use k3c.Daemon.Containers.{StreamResponse}
use k3c.Remote.Interface.{Client, Located, Entry, Event, Volume, Channel, nil, yields}
use k3c.Remote.Messages.{
  CreatePodRequest, CreateContainerRequest, StopContainerRequest, LogContainerRequest,
  AttachRequest, ExecRequest, ImageRequest, TagImageRequest, RemoveVolumeRequest,
  GetContainerResponse, StreamMessage, ImageMessage, VolumeMessage, LogMessage, EventMessage,
  InfoMessage,
}

unfoldable pub to_auth_config : Option CriAuth → Option AuthConfig
to_auth_config none = none
to_auth_config (some a) = some (record {
  username = a.username;
  password = a.password;
  auth = a.auth;
  email = [];
  server_address = a.server_address;
  identity_token = a.identity_token;
  registry_token = a.registry_token;
})

abbrev pub info_message : Info → InfoMessage
info_message i = record {
  ref = i.ref;
  status = i.status;
  offset = i.offset;
  total = i.total;
  started_at = to_int64 i.started_at;
  updated_at = to_int64 i.updated_at;
}

unfoldable pub to_info_response : List Info → List InfoMessage
to_info_response infos = map info_message infos

-- What comes of a handler that streams: it ends with the messages that were sent and an error, if
-- any, or it never returns.
pub data Streamed (A : Type 0) : Type 0 where
  ended : List A → Result (Unit {0}) → Streamed A
  never_ends : Streamed A

-- Sends with the error of each one.
abbrev pub Sends : Type 0
Sends = ℕ → Option Error

abbrev result_of : Option Error → Result (Unit {0})
result_of none = ok tt
result_of (some e) = err e

abbrev pub latest : Option Error → Option Error → Option Error
latest none last = last
latest (some e) last = some e

abbrev pub kept : {A : Type 0} → Option Error → A → List A → List A
kept none m ms = m ∷ ms
kept (some e) m ms = ms

-- The loop over a channel, from the nth message on: the messages sent, and the last error. After
-- an error the context is cancelled, and the loop goes on with what the channel still has.
unfoldable pub send_all :
    {A B : Type 0} → (A → B) → Sends → ℕ → Option Error → List A → List B × Option Error
send_all f sends n last [] = ([], last)
send_all f sends n last (x ∷ xs) =
    let (sent, final) = send_all f sends (n + 1) (latest (sends n) last) xs in
    (kept (sends n) (f x) sent, final)

abbrev pub streamed :
    {A B : Type 0} → (List B × Option Error → Streamed B) → (A → B) → Sends → Channel A → Streamed B
streamed finish f sends nil = never_ends
streamed finish f sends (yields xs) = finish (send_all f sends 0 none xs)

-- A handler that returns the last error of a Send, and one that drops it.
abbrev pub with_error : {B : Type 0} → List B × Option Error → Streamed B
with_error (sent, last) = ended sent (result_of last)

abbrev pub without_error : {B : Type 0} → List B × Option Error → Streamed B
without_error (sent, last) = ended sent (ok tt)

-- A call whose answer is made into another; its error is returned as it is.
abbrev pub answered : {W A B : Type 0} → (A → B) → Result A × W → Result B × W
answered f (ok a, w) = (ok (f a), w)
answered f (err e, w) = (err e, w)
answered f (panic, w) = (panic, w)

abbrev pub stream_ended : {W A B : Type 0} → (A → Streamed B) → Result A × W → Streamed B × W
stream_ended f (ok a, w) = (f a, w)
stream_ended f (err e, w) = (ended [] (err e), w)
stream_ended f (panic, w) = (ended [] panic, w)

abbrev pub container_response : {W : Type 0} → Result Located × W → Result GetContainerResponse × W
container_response (err container_not_found, w) =
    (ok (record { pod = none; container = none; container_id = [] }), w)
container_response (err image_not_found, w) = (err image_not_found, w)
container_response (err (wrapped t e), w) = (err (wrapped t e), w)
container_response (err (message t), w) = (err (message t), w)
container_response (err (other t), w) = (err (other t), w)
container_response (panic, w) = (panic, w)
container_response (ok l, w) =
    (ok (record { pod = l.pod; container = l.container; container_id = l.id }), w)

abbrev pub log_message : Entry → LogMessage
log_message m = record { stderr = m.stderr; message = m.message }

abbrev pub stream_message : StreamResponse → StreamMessage
stream_message s = record { url = s.url; tty = s.tty; stdin = s.stdin }

abbrev pub image_message : Image → ImageMessage
image_message i = record { id = i.id; tags = i.tags; digests = i.digests; size = i.size }

-- The image of the response is nil for an image that is not there.
abbrev pub image_response : {W : Type 0} → Result Image × W → Result (Option ImageMessage) × W
image_response (err image_not_found, w) = (ok none, w)
image_response (err container_not_found, w) = (err container_not_found, w)
image_response (err (wrapped t e), w) = (err (wrapped t e), w)
image_response (err (message t), w) = (err (message t), w)
image_response (err (other t), w) = (err (other t), w)
image_response (panic, w) = (panic, w)
image_response (ok i, w) = (ok (some (image_message i)), w)

abbrev pub event_message : Event → EventMessage
event_message e = record { id = e.id; name = e.name }

abbrev pub volume_message : Volume → VolumeMessage
volume_message v = record { id = v.id }

module _ {W : Type 0} (c : Client W) where
  unfoldable pub list_pods : Unit {0} → Exec W (List Pod)
  list_pods req w = c.list_pods w

  unfoldable pub create_pod : CreatePodRequest → Exec W Text
  create_pod req w = c.create_pod req.name req.opts w

  unfoldable pub create_container : CreateContainerRequest → Exec W Text
  create_container req w = c.create_container req.pod_id req.image req.opts w

  unfoldable pub start_container : Text → Exec W (Unit {0})
  start_container container_id w = c.start_container container_id w

  unfoldable pub stop_container : StopContainerRequest → Exec W (Unit {0})
  stop_container req w = c.stop_container req.container_id req.timeout w

  unfoldable pub remove_container : Text → Exec W (Unit {0})
  remove_container container_id w = c.remove_container container_id w

  unfoldable pub get_container : Text → Exec W GetContainerResponse
  get_container name w = container_response (c.get_container name w)

  unfoldable pub log_container : Sends → LogContainerRequest → W → Streamed LogMessage × W
  log_container sends req w =
      stream_ended (streamed without_error log_message sends) (c.log_container req.name req.opts w)

  unfoldable pub attach : AttachRequest → Exec W StreamMessage
  attach req w = answered stream_message (c.attach req.name req.opts w)

  unfoldable pub exec : ExecRequest → Exec W StreamMessage
  exec req w = answered stream_message (c.exec req.name req.cmd req.opts w)

  unfoldable pub list_images : Unit {0} → Exec W (List ImageMessage)
  list_images req w = answered (map image_message) (c.list_images w)

  unfoldable pub remove_image : Text → Exec W (Unit {0})
  remove_image image w = c.remove_image image w

  unfoldable pub pull_image : ImageRequest → Exec W Text
  unfolding to_auth_config
  pull_image req w = c.pull_image req.image (to_auth_config req.auth_config) w

  unfoldable pub push_image : ImageRequest → Exec W (Unit {0})
  unfolding to_auth_config
  push_image req w = c.push_image req.image (to_auth_config req.auth_config) w

  unfoldable pub get_image : Text → Exec W (Option ImageMessage)
  get_image image w = image_response (c.get_image image w)

  unfoldable pub tag_image : TagImageRequest → Exec W (Unit {0})
  tag_image req w = c.tag_image req.image req.tags w

  unfoldable pub pull_progress : Sends → Text → W → Streamed (List InfoMessage) × W
  unfolding to_info_response
  pull_progress sends image w =
      stream_ended (streamed with_error to_info_response sends) (c.pull_progress image w)

  unfoldable pub push_progress : Sends → Text → W → Streamed (List InfoMessage) × W
  unfolding to_info_response
  push_progress sends image w =
      stream_ended (streamed with_error to_info_response sends) (c.push_progress image w)

  unfoldable pub events : Sends → Unit {0} → W → Streamed EventMessage × W
  events sends req w = stream_ended (streamed with_error event_message sends) (c.events w)

  unfoldable pub list_volumes : Unit {0} → Exec W (List VolumeMessage)
  list_volumes req w = answered (map volume_message) (c.list_volumes w)

  unfoldable pub create_volume : Text → Exec W VolumeMessage
  create_volume name w = answered volume_message (c.create_volume name w)

  unfoldable pub remove_volume : RemoveVolumeRequest → Exec W (Unit {0})
  remove_volume req w = c.remove_volume req.name req.force w
