-- ===== src/Remote/Messages.antt =====
-- The requests and responses of the service (pkg/remote/apis/k3c/v1alpha1), which protoc generates.
-- An empty message is the unit.
use k3c.Prelude.{ℕ, Bool, Option, List}
use k3c.Prelude.Text.{Text}
use k3c.Prelude.Int.{ℤ}
use k3c.Api.{PodOptions, ContainerOptions, ExecOptions, AttachOptions}
use k3c.Core.{Pod, Container}
use k3c.Daemon.Images.{CriAuth}
use k3c.Remote.Interface.{LogOptions}

pub record CreatePodRequest : Type 0 where
  pub name : Text
  pub opts : Option PodOptions

pub record CreateContainerRequest : Type 0 where
  pub pod_id : Text
  pub image : Text
  pub opts : Option ContainerOptions

pub record StopContainerRequest : Type 0 where
  pub container_id : Text
  pub timeout : ℤ

pub record LogContainerRequest : Type 0 where
  pub name : Text
  pub opts : Option LogOptions

pub record AttachRequest : Type 0 where
  pub name : Text
  pub opts : Option AttachOptions

pub record ExecRequest : Type 0 where
  pub name : Text
  pub cmd : List Text
  pub opts : Option ExecOptions

-- PullImageRequest and PushImageRequest
pub record ImageRequest : Type 0 where
  pub image : Text
  pub auth_config : Option CriAuth

pub record TagImageRequest : Type 0 where
  pub image : Text
  pub tags : List Text

pub record RemoveVolumeRequest : Type 0 where
  pub name : Text
  pub force : Bool

pub record GetContainerResponse : Type 0 where
  pub pod : Option Pod
  pub container : Option Container
  pub container_id : Text

pub record StreamMessage : Type 0 where
  pub url : Text
  pub tty : Bool
  pub stdin : Bool

pub record ImageMessage : Type 0 where
  pub id : Text
  pub tags : List Text
  pub digests : List Text
  pub size : ℕ

pub record VolumeMessage : Type 0 where
  pub id : Text

pub record LogMessage : Type 0 where
  pub stderr : Bool
  pub message : List ℕ

pub record EventMessage : Type 0 where
  pub id : Text
  pub name : Text

-- The times are nanoseconds since the year 1970.
pub record InfoMessage : Type 0 where
  pub ref : Text
  pub status : Text
  pub offset : ℕ
  pub total : ℕ
  pub started_at : ℤ
  pub updated_at : ℤ
