-- ===== src/Remote/Interface.antt =====
-- client.Client of pkg/client/client.go: what the daemon offers, and what its client over gRPC
-- offers in turn. With an error Go returns values too; they are left out, and a pointer that is
-- returned without an error is not nil.
use k3c.Prelude.{ℕ, Bool, Option, List}
use k3c.Prelude.Text.{Text}
use k3c.Prelude.Int.{ℤ}
use k3c.Prelude.Results.{Exec}
use k3c.Api.{PodOptions, ContainerOptions, ExecOptions, AttachOptions}
use k3c.Core.{Pod, Container}
use k3c.PushStatus.{Info}
use k3c.Daemon.Images.{Image, AuthConfig}
use k3c.Daemon.Containers.{StreamResponse}

-- log.Entry of pkg/log
pub record Entry : Type 0 where
  pub stderr : Bool
  pub message : List ℕ

-- status.Event of pkg/status
pub record Event : Type 0 where
  pub id : Text
  pub name : Text

-- client.Volume
pub record Volume : Type 0 where
  pub id : Text

-- The results of GetContainer
pub record Located : Type 0 where
  pub pod : Option Pod
  pub container : Option Container
  pub id : Text

-- v1.PodLogOptions, as far as the command line sets it
pub record LogOptions : Type 0 where
  pub follow : Bool
  pub since_time : Option ℤ
  pub timestamps : Bool
  pub tail_lines : Option ℤ

-- A channel, as its receiver sees it: the nil channel, from which a receive never returns, or all
-- that comes until it is closed.
pub data Channel (A : Type 0) : Type 0 where
  nil : Channel A
  yields : List A → Channel A

-- The operations, over the world that they act on.
pub record Client (World : Type 0) : Type 0 where
  pub list_pods : Exec World (List Pod)
  pub create_pod : Text → Option PodOptions → Exec World Text
  pub create_container : Text → Text → Option ContainerOptions → Exec World Text
  pub start_container : Text → Exec World (Unit {0})
  pub stop_container : Text → ℤ → Exec World (Unit {0})
  pub remove_container : Text → Exec World (Unit {0})
  pub log_container : Text → Option LogOptions → Exec World (Channel Entry)
  pub get_container : Text → Exec World Located
  pub attach : Text → Option AttachOptions → Exec World StreamResponse
  pub exec : Text → List Text → Option ExecOptions → Exec World StreamResponse
  pub list_images : Exec World (List Image)
  pub remove_image : Text → Exec World (Unit {0})
  pub pull_image : Text → Option AuthConfig → Exec World Text
  pub pull_progress : Text → Exec World (Channel (List Info))
  pub push_image : Text → Option AuthConfig → Exec World (Unit {0})
  pub push_progress : Text → Exec World (Channel (List Info))
  pub get_image : Text → Exec World Image
  pub tag_image : Text → List Text → Exec World (Unit {0})
  pub create_volume : Text → Exec World Volume
  pub list_volumes : Exec World (List Volume)
  pub remove_volume : Text → Bool → Exec World (Unit {0})
  pub events : Exec World (Channel Event)
