-- ===== src/Tests/Remote.antt =====
-- The client over gRPC on a daemon with one image.
use k3c.Prelude.{◌≡◌, refl, ap, ◌↔◌, false, none, [], ◌∷◌, map, List, if◌then◌else◌}
use k3c.Prelude.Text.{Text, codes, ◌==◌}
use k3c.Prelude.Int.{ℤ, pos, negsuc, to_int64, signed_64}
use k3c.Prelude.Results.{ok, err, image_not_found, container_not_found, wrapped}
use k3c.PushStatus.{Info, zero_time}
use k3c.Daemon.Images.{Image}
use k3c.Remote.Interface.{Client, nil, yields, Event}
use k3c.Remote.Server.{to_info_response}
use k3c.Remote.Gate.{not_initialized}
use k3c.Remote.Calls.{remote, info_of}
use k3c.Remote.Spec.{over, accepted}
use k3c.Remote.Spec.Laws.{remote-over}
use k3c.Remote.Spec.Agreement.{up}
use k3c.Remote.Spec.Times.{InRange, to_info_response-read}
use k3c.Commands.Create
use k3c.Daemon.Service.{Host, State, daemon}
use k3c.Kicker
use k3c.Ports
use k3c.VolumeFlags
use k3c.Prelude.Text.{strip_suffix, strip_prefix, has_prefix, cut}
use k3c.Prelude.Int.{parse_int, to_int32}
use k3c.Prelude.Maps.{insert, lookup}
use k3c.Prelude.Decimal.{itoa}
use k3c.Daemon.Images
use k3c.Daemon.Create as Make
use k3c.Daemon.Config.{store_pod_config, get_pod_config, store_container_config}
use k3c.Daemon.Ids.{to_id, to_pod_user, to_group_ids, to_user_id}
use k3c.Volume.{setup, create_volume, matches_name, hex_encode, resolve}
use k3c.Paths.{join, clean, components, split, push_component}
use k3c.PushStatus.{new_push_jobs}
use k3c.Tests.World.{test_runtime, test_deps, test_disk}
use k3c.Tests.Images.{test_images}
use k3c.Tests.Clients.{idle, two_messages, two_messages-StaysBroken}
use k3c.Tests.Commands.{web_flags, test_libraries}

abbrev busybox : Image
busybox = record { id = codes "sha256:1"; tags = []; digests = codes "b@sha256:2" ∷ []; size = 1 }

abbrev layer : ℤ → Info
layer started = record {
  ref = codes "layer";
  status = codes "waiting";
  offset = 0;
  total = 2;
  started_at = started;
  updated_at = pos 1;
}

abbrev event : Text → Event
event id = record { id = id; name = codes "task.start" }

-- A daemon that notes the pods that it makes.
abbrev small_daemon : Client (List Text)
small_daemon = record (idle (List Text)) {
  get_image = λ image w. (if image == codes "busybox" then ok busybox else err image_not_found, w);
  create_pod = λ name opts w. (ok (codes "p1"), name ∷ w);
  create_container = λ pod_id image opts w. (ok (codes "c1"), w);
  get_container = λ name w. (err container_not_found, w);
  pull_progress = λ image w. (ok nil, w);
  push_progress = λ image w. (ok (yields ((layer zero_time ∷ []) ∷ [])), w);
  events = λ w. (ok (yields (event (codes "1") ∷ event (codes "2") ∷ event (codes "3") ∷ [])), w);
}

remote-over_example : remote two_messages small_daemon ≡ over two_messages small_daemon
remote-over_example = remote-over two_messages small_daemon two_messages-StaysBroken

served_small_daemon : remote two_messages small_daemon ≡ over two_messages small_daemon
served_small_daemon = remote-over two_messages small_daemon two_messages-StaysBroken

-- The daemon on the runtime, the images and the disk of the tests, which does nothing else meanwhile.
abbrev test_host : Host
test_host = record {
  runtime = test_runtime;
  deps = test_deps;
  images = test_images;
  disk = test_disk;
  volumes = codes "/volumes";
  log_path = codes "/logs";
  pod_id = λ n. codes "p1";
  uuid = λ n i. 171 ∷ [];
  read_log = λ path opts w. [];
  tracker = λ ref. none;
  subscribe = λ w. [];
}

abbrev empty_host : State test_host
empty_host = record {
  runtime = record { pods = []; containers = [] };
  images = [];
  disk = [];
  kicker = Kicker.new false;
  pushes = record { jobs = []; trackers = λ n. new_push_jobs };
  drawn = 0;
}

abbrev two_layers : List Info
two_layers = layer zero_time ∷ layer (pos 5) ∷ []

to_info_response-read_example :
    (map info_of (to_info_response two_layers) ≡ two_layers) ↔ InRange two_layers
to_info_response-read_example = to_info_response-read two_layers

-- A time that is not set arrives as one of the year 1754.
zero_time_arrives : to_int64 zero_time ≡ negsuc 6795364578871345151
unfolding to_int64 signed_64
zero_time_arrives = refl

unset_time :
    (remote two_messages small_daemon).push_progress (codes "busybox") (up [])
    ≡ (ok (yields ((layer (negsuc 6795364578871345151) ∷ []) ∷ [])), up [])
unfolding accepted to_int64 signed_64
unset_time = ap (λ cl. cl.push_progress (codes "busybox") (up [])) served_small_daemon

-- Of three events the link sends two; and a progress of an image that is there never ends.
two_events :
    (remote two_messages small_daemon).events (up [])
    ≡ (ok (yields (event (codes "1") ∷ event (codes "2") ∷ [])), up [])
unfolding accepted
two_events = ap (λ cl. cl.events (up [])) served_small_daemon

endless_progress :
    (remote two_messages small_daemon).pull_progress (codes "busybox") (up []) ≡ (ok nil, up [])
endless_progress = ap (λ cl. cl.pull_progress (codes "busybox") (up [])) served_small_daemon

-- A missing container is told by its own error, and nothing is told before the server is ready.
missing_container :
    (remote two_messages small_daemon).get_container (codes "web") (up [])
    ≡ (err container_not_found, up [])
missing_container = ap (λ cl. cl.get_container (codes "web") (up [])) served_small_daemon

not_ready :
    (remote two_messages small_daemon).create_pod
      (codes "web")
      none
      (record { initialized = false; daemon = [] })
    ≡ (
      err (wrapped (codes "rpc error") not_initialized),
      record { initialized = false; daemon = [] },
    )
not_ready =
    ap (λ cl. cl.create_pod (codes "web") none (record { initialized = false; daemon = [] }))
      served_small_daemon

-- At the daemon, `create` makes a pod and a container in it.
created :
    (Create.create
      (daemon test_host (λ s. []))
      test_libraries
      web_flags
      (codes "busybox" ∷ [])
      false
      empty_host).0
    ≡ ok (codes "c-web")
unfolding Create.create Create.pull_image daemon Images.get_image Images.image_to_image
    Images.pull_image Images.to_auth Create.to_pod_options Create.to_shared_options
    Create.to_container_options Ports.parse Ports.parse_port Ports.split_protocol VolumeFlags.parse
    VolumeFlags.parse_volume VolumeFlags.split_3 strip_suffix strip_prefix has_prefix cut parse_int
    to_int32 Make.create_pod Make.create_container Make.pod_config Make.log_directory Make.prepare
    Make.container_config Make.resolve_mounts setup create_volume matches_name hex_encode resolve
    join clean components split push_component store_pod_config get_pod_config
    store_container_config to_id to_pod_user to_group_ids to_user_id insert lookup itoa ◌==◌
created = refl
