-- ===== src/Remote/Calls.antt =====
-- pkg/client/remote.go: the client of the service. Each call sends a request and reads the response
-- with getters, which give zero values of a nil message. gRPC between the two is a parameter.
use k3c.Prelude.{Bool, Option, none, some, List, [], map, if◌then◌else◌}
use k3c.Prelude.Text.{Text, is_empty}
use k3c.Prelude.Int.{ℤ}
use k3c.Prelude.Results.{Error, Result, ok, err, panic, container_not_found, image_not_found, Exec}
use k3c.Api.{PodOptions, ContainerOptions, ExecOptions, AttachOptions}
use k3c.Core.{Pod}
use k3c.PushStatus.{Info}
use k3c.Daemon.Images.{Image, AuthConfig, CriAuth}
use k3c.Daemon.Containers.{StreamResponse}
use k3c.Remote.Interface.{Client, Located, Entry, Event, Volume, Channel, nil, yields, LogOptions}
use k3c.Remote.Messages.{
  GetContainerResponse, StreamMessage, ImageMessage, VolumeMessage, LogMessage, EventMessage,
  InfoMessage,
}
use k3c.Remote.Server.{Sends, Streamed, ended, never_ends}
use k3c.Remote.Gate
use k3c.Remote.Gate.{Served}

-- gRPC: what ToGRPC makes of an error, what a client gets for it, what it gets when the server
-- panics, and which Sends of a stream fail. The response of a call without an error arrives as it
-- is; with an error there is none.
pub record Link : Type 0 where
  pub to_grpc : Error → Error
  pub carried : Error → Error
  pub lost : Error
  pub sends : Sends

abbrev pub received : {A : Type 0} → Link → Result A → Result A
received l (ok a) = ok a
received l (err e) = err (l.carried e)
received l panic = err l.lost

-- A call, with what is made of its response.
abbrev pub call : {A B W : Type 0} → Link → (A → Result B) → Result A × W → Result B × W
call l f (a, w) = (after f (received l a), w)
  where
    after : {A B : Type 0} → (A → Result B) → Result A → Result B
    after f (ok a) = f a
    after f (err e) = err e
    after f panic = panic

-- A stream opens before the server answers, so its errors only end the channel: a receiver gets
-- what was sent.
abbrev arrived : {A B : Type 0} → (A → B) → Streamed A → Channel B
arrived f (ended ms r) = yields (map f ms)
arrived f never_ends = nil

abbrev pub opened : {A B W : Type 0} → (A → B) → Streamed A × W → Result (Channel B) × W
opened f (m, w) = (ok (arrived f m), w)

unfoldable pub to_auth_config : Option AuthConfig → Option CriAuth
to_auth_config none = none
to_auth_config (some a) = some (record {
  username = a.username;
  password = a.password;
  auth = a.auth;
  server_address = a.server_address;
  identity_token = a.identity_token;
  registry_token = a.registry_token;
})

abbrev pub stream_of : StreamMessage → Result StreamResponse
stream_of m = ok (record { url = m.url; tty = m.tty; stdin = m.stdin })

abbrev pub image_of : ImageMessage → Image
image_of m = record { id = m.id; tags = m.tags; digests = m.digests; size = m.size }

-- time.Unix(0, n) is the time of n nanoseconds.
abbrev pub info_of : InfoMessage → Info
info_of m = record {
  ref = m.ref;
  status = m.status;
  offset = m.offset;
  total = m.total;
  started_at = m.started_at;
  updated_at = m.updated_at;
}

-- What the goroutine sends on, until the stream ends.
unfoldable pub stream :
    {W : Type 0} → Streamed (List InfoMessage) × W → Result (Channel (List Info)) × W
stream s = opened (map info_of) s

abbrev pub found_container : GetContainerResponse → Result Located
found_container m =
    if is_empty m.container_id
    then err container_not_found
    else ok (record { pod = m.pod; container = m.container; id = m.container_id })

abbrev pub image_id : Option ImageMessage → Text
image_id none = []
image_id (some m) = m.id

-- The getters of GetImage().
abbrev pub image_or_zero : Option ImageMessage → Image
image_or_zero none = record { id = []; tags = []; digests = []; size = 0 }
image_or_zero (some m) = image_of m

abbrev pub found_image : Option ImageMessage → Result Image
found_image m = if is_empty (image_id m) then err image_not_found else ok (image_or_zero m)

abbrev pub entry_of : LogMessage → Entry
entry_of m = record { stderr = m.stderr; message = m.message }

abbrev pub event_of : EventMessage → Event
event_of m = record { id = m.id; name = m.name }

abbrev pub volume_of : VolumeMessage → Volume
volume_of m = record { id = m.id }

module _ {W : Type 0} (l : Link) (c : Client W) where
  unfoldable pub list_pods : Exec (Served W) (List Pod)
  list_pods s = call l ok (Gate.list_pods l.to_grpc c tt s)

  unfoldable pub create_pod : Text → Option PodOptions → Exec (Served W) Text
  create_pod name opts s =
      call l ok (Gate.create_pod l.to_grpc c (record { name = name; opts = opts }) s)

  unfoldable pub create_container : Text → Text → Option ContainerOptions → Exec (Served W) Text
  create_container pod_id image opts s =
      call l ok (
        Gate.create_container l.to_grpc c (record { pod_id = pod_id; image = image; opts = opts })
          s)

  unfoldable pub remove_container : Text → Exec (Served W) (Unit {0})
  remove_container container_id s = call l ok (Gate.remove_container l.to_grpc c container_id s)

  unfoldable pub start_container : Text → Exec (Served W) (Unit {0})
  start_container container_id s = call l ok (Gate.start_container l.to_grpc c container_id s)

  unfoldable pub stop_container : Text → ℤ → Exec (Served W) (Unit {0})
  stop_container container_id timeout s = call l ok (
      Gate.stop_container l.to_grpc c (record { container_id = container_id; timeout = timeout }) s)

  unfoldable pub get_container : Text → Exec (Served W) Located
  get_container name s = call l found_container (Gate.get_container l.to_grpc c name s)

  unfoldable pub log_container : Text → Option LogOptions → Exec (Served W) (Channel Entry)
  log_container container_id opts s =
      opened entry_of
        (Gate.log_container l.to_grpc c l.sends (record { name = container_id; opts = opts }) s)

  unfoldable pub attach : Text → Option AttachOptions → Exec (Served W) StreamResponse
  attach name opts s =
      call l stream_of (Gate.attach l.to_grpc c (record { name = name; opts = opts }) s)

  unfoldable pub exec : Text → List Text → Option ExecOptions → Exec (Served W) StreamResponse
  exec name cmd opts s =
      call l stream_of (Gate.exec l.to_grpc c (record { name = name; cmd = cmd; opts = opts }) s)

  unfoldable pub list_images : Exec (Served W) (List Image)
  list_images s = call l (λ ms. ok (map image_of ms)) (Gate.list_images l.to_grpc c tt s)

  unfoldable pub remove_image : Text → Exec (Served W) (Unit {0})
  remove_image image s = call l ok (Gate.remove_image l.to_grpc c image s)

  unfoldable pub pull_image : Text → Option AuthConfig → Exec (Served W) Text
  unfolding to_auth_config
  pull_image image auth_config s = call l ok (
      Gate.pull_image l.to_grpc c
        (record { image = image; auth_config = to_auth_config auth_config }) s)

  unfoldable pub push_image : Text → Option AuthConfig → Exec (Served W) (Unit {0})
  unfolding to_auth_config
  push_image image auth_config s = call l ok (
      Gate.push_image l.to_grpc c
        (record { image = image; auth_config = to_auth_config auth_config }) s)

  unfoldable pub pull_progress : Text → Exec (Served W) (Channel (List Info))
  unfolding stream
  pull_progress image s = stream (Gate.pull_progress l.to_grpc c l.sends image s)

  unfoldable pub push_progress : Text → Exec (Served W) (Channel (List Info))
  unfolding stream
  push_progress image s = stream (Gate.push_progress l.to_grpc c l.sends image s)

  unfoldable pub get_image : Text → Exec (Served W) Image
  get_image image s = call l found_image (Gate.get_image l.to_grpc c image s)

  unfoldable pub tag_image : Text → List Text → Exec (Served W) (Unit {0})
  tag_image image tags s =
      call l ok (Gate.tag_image l.to_grpc c (record { image = image; tags = tags }) s)

  unfoldable pub events : Exec (Served W) (Channel Event)
  events s = opened event_of (Gate.events l.to_grpc c l.sends tt s)

  unfoldable pub create_volume : Text → Exec (Served W) Volume
  create_volume name s = call l (λ m. ok (volume_of m)) (Gate.create_volume l.to_grpc c name s)

  unfoldable pub list_volumes : Exec (Served W) (List Volume)
  list_volumes s = call l (λ ms. ok (map volume_of ms)) (Gate.list_volumes l.to_grpc c tt s)

  unfoldable pub remove_volume : Text → Bool → Exec (Served W) (Unit {0})
  remove_volume name force s =
      call l ok (Gate.remove_volume l.to_grpc c (record { name = name; force = force }) s)

  -- The client, as a Client of its own.
  abbrev pub remote : Client (Served W)
  remote = record {
    list_pods = list_pods;
    create_pod = create_pod;
    create_container = create_container;
    start_container = start_container;
    stop_container = stop_container;
    remove_container = remove_container;
    log_container = log_container;
    get_container = get_container;
    attach = attach;
    exec = exec;
    list_images = list_images;
    remove_image = remove_image;
    pull_image = pull_image;
    pull_progress = pull_progress;
    push_image = push_image;
    push_progress = push_progress;
    get_image = get_image;
    tag_image = tag_image;
    create_volume = create_volume;
    list_volumes = list_volumes;
    remove_volume = remove_volume;
    events = events;
  }
