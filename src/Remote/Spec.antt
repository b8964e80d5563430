-- ===== src/Remote/Spec.antt =====
-- What the client over gRPC promises: the daemon's own operations, behind the gate of a server that is
-- initialised or not, with the errors as the link carries them.
pub mod Calls
pub mod Streams
pub mod Laws
pub mod Agreement
pub mod Times
use k3c.Prelude.{ℕ, ◌+◌, Bool, Option, none, some, List, [], ◌∷◌, map, if◌then◌else◌}
use k3c.Prelude.Text.{is_empty}
use k3c.Prelude.Int.{to_int64}
use k3c.Prelude.Results.{
  Error, Result, ok, err, panic, container_not_found, image_not_found, wrapped, message, other,
  Exec,
}
use k3c.PushStatus.{Info}
use k3c.Daemon.Images.{Image, AuthConfig}
use k3c.Remote.Interface.{Client, Located, Channel, nil, yields}
use k3c.Remote.Server.{Sends}
use k3c.Remote.Gate.{Served, not_initialized}
use k3c.Remote.Calls.{Link}

abbrev pub delivered : {A : Type 0} → Link → Result A → Result A
delivered l (ok a) = ok a
delivered l (err e) = err (l.carried (l.to_grpc e))
delivered l panic = err l.lost

-- An operation that answers `to` of what the daemon answers, and `gate` before the server is ready.
abbrev pub behind :
    {A B W : Type 0} → Result B → (Result A → Result B) → Exec W A → Exec (Served W) B
behind gate to call s =
    if s.initialized
    then (to (call s.daemon).0, record s { daemon = (call s.daemon).1 })
    else (gate, s)

abbrev pub refused : {A : Type 0} → Link → Result A
refused l = err (l.carried not_initialized)

abbrev pub through : {A W : Type 0} → Link → Exec W A → Exec (Served W) A
through l = behind (refused l) (delivered l)

-- A missing container or image is told by the very error that the daemon gives for it; so is one
-- without an id.
abbrev pub located : Link → Result Located → Result Located
located l (ok x) = if is_empty x.id then err container_not_found else ok x
located l (err container_not_found) = err container_not_found
located l (err image_not_found) = delivered l (err image_not_found)
located l (err (wrapped t e)) = delivered l (err (wrapped t e))
located l (err (message t)) = delivered l (err (message t))
located l (err (other t)) = delivered l (err (other t))
located l panic = delivered l panic

abbrev pub imaged : Link → Result Image → Result Image
imaged l (ok x) = if is_empty x.id then err image_not_found else ok x
imaged l (err image_not_found) = err image_not_found
imaged l (err container_not_found) = delivered l (err container_not_found)
imaged l (err (wrapped t e)) = delivered l (err (wrapped t e))
imaged l (err (message t)) = delivered l (err (message t))
imaged l (err (other t)) = delivered l (err (other t))
imaged l panic = delivered l panic

abbrev continued : {A : Type 0} → Option Error → A → List A → List A
continued none x xs = x ∷ xs
continued (some e) x xs = []

-- What comes through before the first Send that fails.
unfoldable pub accepted : {A : Type 0} → Sends → ℕ → List A → List A
accepted sends n [] = []
accepted sends n (x ∷ xs) = let later = accepted sends (n + 1) xs in continued (sends n) x later

-- A stream, which has no error: where the daemon has one, the channel is empty.
abbrev pub channel : {A : Type 0} → Link → (A → A) → Result (Channel A) → Result (Channel A)
channel l f (ok nil) = ok nil
channel l f (ok (yields xs)) = ok (yields (map f (accepted l.sends 0 xs)))
channel l f (err e) = ok (yields [])
channel l f panic = ok (yields [])

abbrev pub channeled :
    {A W : Type 0} → Link → (A → A) → Exec W (Channel A) → Exec (Served W) (Channel A)
channeled l f = behind (ok (yields [])) (channel l f)

abbrev pub without_email : Option AuthConfig → Option AuthConfig
without_email none = none
without_email (some a) = some (record a { email = [] })

-- The times as a 64-bit number of nanoseconds holds them.
abbrev pub timed : Info → Info
timed i = record i { started_at = to_int64 i.started_at; updated_at = to_int64 i.updated_at }

abbrev pub over : {W : Type 0} → Link → Client W → Client (Served W)
over l c = record {
  list_pods = through l c.list_pods;
  create_pod = λ name opts. through l (c.create_pod name opts);
  create_container = λ pod_id image opts. through l (c.create_container pod_id image opts);
  start_container = λ id. through l (c.start_container id);
  stop_container = λ id timeout. through l (c.stop_container id timeout);
  remove_container = λ id. through l (c.remove_container id);
  log_container = λ id opts. channeled l (λ x. x) (c.log_container id opts);
  get_container = λ name. behind (refused l) (located l) (c.get_container name);
  attach = λ name opts. through l (c.attach name opts);
  exec = λ name cmd opts. through l (c.exec name cmd opts);
  list_images = through l c.list_images;
  remove_image = λ image. through l (c.remove_image image);
  pull_image = λ image auth. through l (c.pull_image image (without_email auth));
  pull_progress = λ image. channeled l (map timed) (c.pull_progress image);
  push_image = λ image auth. through l (c.push_image image (without_email auth));
  push_progress = λ image. channeled l (map timed) (c.push_progress image);
  get_image = λ image. behind (refused l) (imaged l) (c.get_image image);
  tag_image = λ image tags. through l (c.tag_image image tags);
  create_volume = λ name. through l (c.create_volume name);
  list_volumes = through l c.list_volumes;
  remove_volume = λ name force. through l (c.remove_volume name force);
  events = channeled l (λ x. x) c.events;
}
