-- ===== src/Core.antt =====
-- The Kubernetes types (k8s.io/api/core/v1) that the daemon answers in, as far as it fills them.
-- Fields that it sets to a constant are left out, and so are nil ones.
use k3c.Prelude.{Bool, Option, List}
use k3c.Prelude.Text.{Text}
use k3c.Prelude.Maps.{Map}
use k3c.Prelude.Int.{ℤ}

pub data Phase : Type 0 where
  pending running succeeded failed unknown : Phase

-- PodDNSConfigOption, Sysctl and EnvVar
pub record DnsOption : Type 0 where
  pub name : Text
  pub value : Option Text

pub record Named : Type 0 where
  pub name : Text
  pub value : Text

pub record Selinux : Type 0 where
  pub user : Text
  pub role : Text
  pub kind : Text
  pub level : Text

pub record PodSecurityContext : Type 0 where
  pub selinux_options : Selinux
  pub run_as_user : Option ℤ
  pub run_as_group : Option ℤ
  pub supplemental_groups : List ℤ
  pub sysctls : List Named

pub record PodDns : Type 0 where
  pub nameservers : List Text
  pub searches : List Text
  pub options : List DnsOption

-- Volume: a host path, or an empty directory
pub data Source : Type 0 where
  host_path : Text → Source
  empty_dir : Source

pub record Volume : Type 0 where
  pub name : Text
  pub source : Source

pub data MountPropagation : Type 0 where
  none_mode host_to_container bidirectional : MountPropagation

pub record VolumeMount : Type 0 where
  pub name : Text
  pub readonly : Bool
  pub mount_path : Text
  pub propagation : MountPropagation

-- ContainerPort; the protocol is set for UDP alone
pub record ContainerPort : Type 0 where
  pub name : Text
  pub host_port : ℤ
  pub container_port : ℤ
  pub host_ip : Text
  pub is_udp : Bool

-- ResourceRequirements: the quantities of Requests
pub record Requests : Type 0 where
  pub memory : Option ℤ
  pub cpu : Option ℤ

pub record SecurityContext : Type 0 where
  pub add : List Text
  pub drop : List Text
  pub privileged : Option Bool
  pub selinux_options : Selinux
  pub run_as_user : Option ℤ
  pub run_as_group : Option ℤ
  pub readonly_rootfs : Option Bool

pub record Container : Type 0 where
  pub name : Text
  pub image : Text
  pub command : List Text
  pub args : List Text
  pub working_dir : Text
  pub ports : List ContainerPort
  pub env : List Named
  pub resources : Requests
  pub volume_mounts : List VolumeMount
  pub security : SecurityContext
  pub stdin : Bool
  pub stdin_once : Bool
  pub tty : Bool

pub record Waiting : Type 0 where
  pub reason : Text
  pub message : Text

pub record Running : Type 0 where
  pub started_at : ℤ

pub record Terminated : Type 0 where
  pub exit_code : ℤ
  pub reason : Text
  pub message : Text
  pub started_at : ℤ
  pub finished_at : ℤ
  pub container_id : Text

pub record ContainerState : Type 0 where
  pub waiting : Option Waiting
  pub running : Option Running
  pub terminated : Option Terminated

pub record ContainerStatus : Type 0 where
  pub name : Text
  pub state : ContainerState
  pub restart_count : ℤ
  pub image : Text
  pub image_id : Text
  pub container_id : Text

pub record PodSpec : Type 0 where
  pub volumes : List Volume
  pub containers : List Container
  pub restart_policy : Text
  pub host_network : Bool
  pub host_pid : Bool
  pub host_ipc : Bool
  pub share_process_namespace : Bool
  pub security : PodSecurityContext
  pub hostname : Text
  pub dns : PodDns
  pub runtime_class_name : Option Text

pub record PodStatus : Type 0 where
  pub start_time : Option ℤ
  pub phase : Phase
  pub pod_ip : Text
  pub pod_ips : List Text
  pub container_statuses : List ContainerStatus

pub record Pod : Type 0 where
  pub uid : Text
  pub creation_timestamp : ℤ
  pub name : Text
  pub namespace : Text
  pub labels : Map Text
  pub annotations : Map Text
  pub spec : PodSpec
  pub status : PodStatus
