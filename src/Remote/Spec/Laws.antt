-- ===== src/Remote/Spec/Laws.antt =====
-- The client over gRPC is the daemon behind the gate and the link.
use k3c.Prelude.{◌≡◌, refl, ap, ◌∙◌, Option, none, some, List, [], ◌∷◌, map}
use k3c.Prelude.Text.{Text}
use k3c.Prelude.Results.{
  Result, ok, err, panic, container_not_found, image_not_found, wrapped, message, other,
}
use k3c.PushStatus.{Info}
use k3c.Daemon.Images.{Image, AuthConfig}
use k3c.Remote.Interface.{Client, Located, Volume}
use k3c.Remote.Server
use k3c.Remote.Server.{log_message, stream_message, event_message}
use k3c.Remote.Calls.{entry_of, event_of, stream_of}
use k3c.Remote.Server.{
  image_message, container_response, image_response, volume_message, info_message, with_error,
  without_error,
}
use k3c.Remote.Gate
use k3c.Remote.Gate.{Served, mapped}
use k3c.Remote.Calls
use k3c.Remote.Calls.{
  Link, call, remote, image_of, volume_of, found_container, found_image, info_of,
}
use k3c.Remote.Spec.{located, imaged, without_email, over, through, timed}
use k3c.Remote.Spec.Calls.{call-behind, call-message, call-plain}
use k3c.Remote.Spec.Streams.{StaysBroken, opened-channeled, ends-with_error, ends-without_error}

map-images : (xs : List Image) → map image_of (map image_message xs) ≡ xs
map-images [] = refl
map-images (x ∷ xs) = ap (λ r. x ∷ r) (map-images xs)

map-volumes : (xs : List Volume) → map volume_of (map volume_message xs) ≡ xs
map-volumes [] = refl
map-volumes (x ∷ xs) = ap (λ r. x ∷ r) (map-volumes xs)

map-infos : (xs : List Info) → map info_of (map info_message xs) ≡ map timed xs
map-infos [] = refl
map-infos (x ∷ xs) = ap (λ r. timed x ∷ r) (map-infos xs)

to_auth_config-email :
    (a : Option AuthConfig) → Server.to_auth_config (Calls.to_auth_config a) ≡ without_email a
unfolding Server.to_auth_config Calls.to_auth_config
to_auth_config-email none = refl
to_auth_config-email (some a) = refl

module _ {W : Type 0} (l : Link) where
  call-container :
      (x : Result Located × W)
      → call l found_container (mapped l.to_grpc (container_response x).0, (container_response x).1)
        ≡ (located l x.0, x.1)
  call-container (ok x, w) = refl
  call-container (err container_not_found, w) = refl
  call-container (err image_not_found, w) = refl
  call-container (err (wrapped t e), w) = refl
  call-container (err (message t), w) = refl
  call-container (err (other t), w) = refl
  call-container (panic, w) = refl

  call-image :
      (x : Result Image × W)
      → call l found_image (mapped l.to_grpc (image_response x).0, (image_response x).1)
        ≡ (imaged l x.0, x.1)
  call-image (ok x, w) = refl
  call-image (err container_not_found, w) = refl
  call-image (err image_not_found, w) = refl
  call-image (err (wrapped t e), w) = refl
  call-image (err (message t), w) = refl
  call-image (err (other t), w) = refl
  call-image (panic, w) = refl

module _ {W : Type 0} (l : Link) (c : Client W) where
  pull_image-through :
      (image : Text) (auth : Option AuthConfig) (s : Served W)
      → Calls.pull_image l c image auth s ≡ through l (c.pull_image image (without_email auth)) s
  unfolding Calls.pull_image Gate.pull_image Server.pull_image
  pull_image-through image auth s =
      call-plain l (c.pull_image image (Server.to_auth_config (Calls.to_auth_config auth))) s
      ∙ ap (λ a. through l (c.pull_image image a) s) (to_auth_config-email auth)

  push_image-through :
      (image : Text) (auth : Option AuthConfig) (s : Served W)
      → Calls.push_image l c image auth s ≡ through l (c.push_image image (without_email auth)) s
  unfolding Calls.push_image Gate.push_image Server.push_image
  push_image-through image auth s =
      call-plain l (c.push_image image (Server.to_auth_config (Calls.to_auth_config auth))) s
      ∙ ap (λ a. through l (c.push_image image a) s) (to_auth_config-email auth)

  -- The client over gRPC is the daemon, operation by operation: `over` says that each call reaches
  -- the daemon's operation of the same name with the same arguments (but the email of credentials)
  -- where the server is initialised, that its value comes back, and that its error comes back as the
  -- link carries it; that an error of GetContainer or GetImage for what is not there comes back as
  -- that very error; that a stream comes back up to the first Send that fails, with its times as
  -- 64-bit numbers of nanoseconds, and without the daemon's error; and that a server that is not
  -- initialised answers its own error and leaves the daemon alone. Of gRPC it is assumed that a
  -- stream stays broken once a Send has failed.
  pub remote-over : StaysBroken l.sends → remote l c ≡ over l c
  unfolding Calls.list_pods Gate.list_pods Server.list_pods Calls.create_pod Gate.create_pod
      Server.create_pod Calls.create_container Gate.create_container Server.create_container
      Calls.start_container Gate.start_container Server.start_container Calls.stop_container
      Gate.stop_container Server.stop_container Calls.remove_container Gate.remove_container
      Server.remove_container Calls.log_container Gate.log_container Server.log_container
      Calls.get_container Gate.get_container Server.get_container Calls.attach Gate.attach
      Server.attach Calls.exec Gate.exec Server.exec Calls.list_images Gate.list_images
      Server.list_images Calls.remove_image Gate.remove_image Server.remove_image
      Calls.pull_progress Gate.pull_progress Server.pull_progress Calls.push_progress
      Gate.push_progress Server.push_progress Calls.get_image Gate.get_image Server.get_image
      Calls.tag_image Gate.tag_image Server.tag_image Calls.create_volume Gate.create_volume
      Server.create_volume Calls.list_volumes Gate.list_volumes Server.list_volumes
      Calls.remove_volume Gate.remove_volume Server.remove_volume Calls.events Gate.events
      Server.events Server.to_info_response Calls.stream
  remote-over broken = λ i. record {
    list_pods = λ s. call-plain l c.list_pods s i;
    create_pod = λ name opts s. call-plain l (c.create_pod name opts) s i;
    create_container =
        λ pod_id image opts s. call-plain l (c.create_container pod_id image opts) s i;
    start_container = λ id s. call-plain l (c.start_container id) s i;
    stop_container = λ id timeout s. call-plain l (c.stop_container id timeout) s i;
    remove_container = λ id s. call-plain l (c.remove_container id) s i;
    log_container = λ id opts s.
        opened-channeled l broken without_error ends-without_error log_message entry_of (λ x. x)
          (λ x. refl) (c.log_container id opts) s i;
    get_container = λ name s.
        call-behind l found_container (λ w. container_response (c.get_container name w)) (located l)
          (c.get_container name) (λ w. call-container l (c.get_container name w)) s i;
    attach =
        λ name opts s. call-message l stream_of stream_message (λ x. refl) (c.attach name opts) s i;
    exec = λ name cmd opts s.
        call-message l stream_of stream_message (λ x. refl) (c.exec name cmd opts) s i;
    list_images = λ s.
        call-message l (λ ms. ok (map image_of ms)) (map image_message)
          (λ xs. ap ok (map-images xs)) c.list_images s i;
    remove_image = λ image s. call-plain l (c.remove_image image) s i;
    pull_image = λ image auth s. pull_image-through image auth s i;
    pull_progress = λ image s.
        opened-channeled l broken with_error ends-with_error (map info_message) (map info_of)
          (map timed) map-infos (c.pull_progress image) s i;
    push_image = λ image auth s. push_image-through image auth s i;
    push_progress = λ image s.
        opened-channeled l broken with_error ends-with_error (map info_message) (map info_of)
          (map timed) map-infos (c.push_progress image) s i;
    get_image = λ image s.
        call-behind l found_image (λ w. image_response (c.get_image image w)) (imaged l)
          (c.get_image image) (λ w. call-image l (c.get_image image w)) s i;
    tag_image = λ image tags s. call-plain l (c.tag_image image tags) s i;
    create_volume = λ name s.
        call-message l (λ m. ok (volume_of m)) volume_message (λ x. refl) (c.create_volume name) s
          i;
    list_volumes = λ s.
        call-message l (λ ms. ok (map volume_of ms)) (map volume_message)
          (λ xs. ap ok (map-volumes xs)) c.list_volumes s i;
    remove_volume = λ name force s. call-plain l (c.remove_volume name force) s i;
    events = λ s.
        opened-channeled l broken with_error ends-with_error event_message event_of (λ x. x)
          (λ x. refl) c.events s i;
  }
