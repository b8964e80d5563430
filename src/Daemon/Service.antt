-- ===== src/Daemon/Service.antt =====
-- The Daemon of pkg/daemon/client.go as an implementation of client.Client: its operations, each on
-- its part of one state.

use k3c.Prelude.{ℕ, suc, true, Option, none, some, List, [], ◌∷◌, map}
use k3c.Prelude.Text.{Text}
use k3c.Prelude.Results.{Result, ok, err, panic}
use k3c.Kicker.{Kicker}
use k3c.PushStatus.{Info, Tracker}
use k3c.Volume
use k3c.Volume.{Disk}
use k3c.Daemon.Runtime.{Runtime, Deps}
use k3c.Daemon.Pods.{list_pods}
use k3c.Daemon.Create.{create_pod, create_container}
use k3c.Daemon.Containers
use k3c.Daemon.Containers.{Found, LogSource, closed, file}
use k3c.Daemon.Images
use k3c.Daemon.Images.{ImageServices}
use k3c.Daemon.Pushes
use k3c.Daemon.Pushes.{Pushes, tracker_status}
use k3c.Daemon.Events.{Payload, pass_on}
use k3c.Remote.Interface.{Client, Located, Entry, Volume, LogOptions, Channel, nil, yields}

-- What the daemon runs over: its services and libraries, the directories for volumes and logs, the
-- identifiers that its nth operation draws, the reader of log files and containerd's events.
pub record Host : Type 1 where
  pub runtime : Runtime
  pub deps : Deps
  pub images : ImageServices
  pub disk : Disk
  pub volumes : Text
  pub log_path : Text
  pub pod_id : ℕ → Text
  pub uuid : ℕ → ℕ → List ℕ
  pub read_log : Text → Option LogOptions → runtime.World → List Entry
  pub tracker : Tracker
  pub subscribe : runtime.World → List Payload

pub record State (h : Host) : Type 0 where
  pub runtime : h.runtime.World
  pub images : h.images.World
  pub disk : h.disk.State
  pub kicker : Kicker
  pub pushes : Pushes
  pub drawn : ℕ

module _ (h : Host) where
  abbrev pub on_runtime : {A : Type 0} → State h → Result A × h.runtime.World → Result A × State h
  on_runtime s (a, w) = (a, record s { runtime = w; drawn = suc s.drawn })

  abbrev on_images : {A : Type 0} → State h → Result A × h.images.World → Result A × State h
  on_images s (a, w) = (a, record s { images = w })

  abbrev on_disk : {A : Type 0} → State h → Result A × h.disk.State → Result A × State h
  on_disk s (a, d) = (a, record s { disk = d; drawn = suc s.drawn })

  abbrev on_both :
      {A : Type 0} → State h → Result A × (h.runtime.World × h.disk.State) → Result A × State h
  on_both s (a, (w, d)) = (a, record s { runtime = w; disk = d; drawn = suc s.drawn })

  abbrev on_kicker :
      {A : Type 0} → State h → Result A × Kicker × h.runtime.World → Result A × State h
  on_kicker s (a, k, w) = (a, record s { runtime = w; kicker = k })

  abbrev on_pushes :
      {A : Type 0} → State h → Result A × (Pushes × h.images.World) → Result A × State h
  on_pushes s (a, (p, w)) = (a, record s { pushes = p; images = w; drawn = suc s.drawn })

  abbrev with_answer : {A B : Type 0} → (A → B) → Result A → Result B
  with_answer f (ok a) = ok (f a)
  with_answer f (err e) = err e
  with_answer f panic = panic

  abbrev locate : Found → Located
  locate f = record { pod = some f.pod; container = some f.container; id = f.id }

  abbrev volume : Text → Volume
  volume name = record { id = name }

  abbrev entries : Option LogOptions → h.runtime.World → LogSource → Channel Entry
  entries opts w closed = yields []
  entries opts w (file path) = yields (h.read_log path opts w)

  abbrev progress : Option (List (List Info)) → Channel (List Info)
  progress none = nil
  progress (some infos) = yields infos

  abbrev pushed : List (State h) → Option ℕ → Channel (List Info)
  pushed later none = yields []
  pushed later (some n) = yields (map (λ s. tracker_status h.tracker n s.pushes) later)

  -- `later` are the states that a clock's ticks find while a channel is read.
  unfoldable pub daemon : (State h → List (State h)) → Client (State h)
  daemon later = record {
    list_pods = λ s. (list_pods h.runtime h.deps true s.runtime, s);
    create_pod = λ name opts s.
        on_runtime s
          (create_pod h.runtime h.deps.codec h.log_path (h.pod_id s.drawn) name opts s.runtime);
    create_container = λ pod_id image opts s. on_both s (
        create_container h.runtime h.deps.codec h.disk h.volumes (h.uuid s.drawn) pod_id image opts
          (s.runtime, s.disk));
    start_container =
        λ id s. on_runtime s (Containers.start_container h.runtime h.deps id s.runtime);
    stop_container = λ id timeout s.
        on_runtime s (Containers.stop_container h.runtime h.deps id timeout s.runtime);
    remove_container =
        λ id s. on_kicker s (Containers.remove_container h.runtime h.deps id s.kicker s.runtime);
    log_container = λ id opts s. (
      with_answer (entries opts s.runtime) (Containers.log_container h.runtime h.deps id s.runtime),
      s,
    );
    get_container = λ name s.
        (with_answer locate (Containers.get_container h.runtime h.deps name s.runtime), s);
    attach = λ name opts s. on_runtime s (Containers.attach h.runtime h.deps name opts s.runtime);
    exec =
        λ name cmd opts s. on_runtime s (Containers.exec h.runtime h.deps name cmd opts s.runtime);
    list_images = λ s. (Images.list_images h.images s.images, s);
    remove_image = λ image s. on_images s (Images.remove_image h.images image s.images);
    pull_image = λ image auth s. on_images s (Images.pull_image h.images image auth s.images);
    pull_progress = λ image s. (
      with_answer progress
          (Images.pull_progress h.images image s.images (map (λ t. t.images) (later s))),
      s,
    );
    push_image = λ image auth s.
        on_pushes s (Pushes.push_image h.images s.drawn image auth (s.pushes, s.images));
    push_progress = λ image s.
        (ok (pushed (later s) (Pushes.push_progress image (map (λ t. t.pushes) (s ∷ later s)))), s);
    get_image = λ image s. (Images.get_image h.images image s.images, s);
    tag_image = λ image tags s. on_images s (Images.tag_image h.images image tags s.images);
    create_volume = λ name s. on_disk s (
      with_answer volume (Volume.create_volume h.disk h.volumes (h.uuid s.drawn 0) name s.disk).0,
      (Volume.create_volume h.disk h.volumes (h.uuid s.drawn 0) name s.disk).1,
    );
    list_volumes = λ s. (with_answer (map volume) (Volume.list_volumes h.disk h.volumes s.disk), s);
    remove_volume =
        λ name force s. on_disk s (Volume.remove_volume h.disk h.volumes name force s.disk);
    events = λ s. (ok (yields (pass_on (h.subscribe s.runtime))), s);
  }
