-- ===== src/Cri.antt =====
-- The messages of the container runtime interface (k8s.io/cri-api, runtime v1alpha2), as far as
-- the program reads or writes them. A pointer that may be nil is an `Option`; a map is a `Map`.
use k3c.Prelude.{ℕ, Bool, Option, List}
use k3c.Prelude.Text.{Text}
use k3c.Prelude.Maps.{Map}
use k3c.Prelude.Int.{ℤ}

pub data Protocol : Type 0 where
  tcp udp : Protocol

pub record PortMapping : Type 0 where
  pub protocol : Protocol
  pub container_port : ℤ
  pub host_port : ℤ
  pub host_ip : Text

pub data Propagation : Type 0 where
  private host_to_container bidirectional : Propagation

pub record Mount : Type 0 where
  pub container_path : Text
  pub host_path : Text
  pub readonly : Bool
  pub propagation : Propagation

pub data NamespaceMode : Type 0 where
  pod container node : NamespaceMode

pub record NamespaceOption : Type 0 where
  pub network : NamespaceMode
  pub pid : NamespaceMode
  pub ipc : NamespaceMode

pub record SelinuxOption : Type 0 where
  pub user : Text
  pub role : Text
  pub kind : Text
  pub level : Text

pub record DnsConfig : Type 0 where
  pub servers : List Text
  pub searches : List Text
  pub options : List Text

pub record KeyValue : Type 0 where
  pub key : Text
  pub value : Text

-- PodSandboxMetadata
pub record PodMetadata : Type 0 where
  pub name : Text
  pub uid : Text
  pub namespace : Text

-- LinuxSandboxSecurityContext
pub record PodSecurity : Type 0 where
  pub namespaces : NamespaceOption
  pub selinux : Option SelinuxOption
  pub run_as_user : Option ℤ
  pub run_as_group : Option ℤ
  pub readonly_rootfs : Bool
  pub supplemental_groups : List ℤ
  pub privileged : Bool
  pub seccomp_profile : Text

-- PodSandboxConfig, with the fields of LinuxPodSandboxConfig
pub record PodConfig : Type 0 where
  pub metadata : PodMetadata
  pub hostname : Text
  pub log_directory : Text
  pub dns_config : Option DnsConfig
  pub port_mappings : List PortMapping
  pub labels : Map Text
  pub annotations : Map Text
  pub cgroup_parent : Text
  pub security : PodSecurity
  pub sysctls : Map Text

pub data SandboxState : Type 0 where
  ready notready : SandboxState

-- PodSandbox, as ListPodSandbox returns it
pub record PodSandbox : Type 0 where
  pub id : Text
  pub metadata : PodMetadata
  pub state : SandboxState
  pub created_at : ℤ
  pub labels : Map Text
  pub annotations : Map Text
  pub runtime_handler : Text

pub data ContainerState : Type 0 where
  created running exited unknown : ContainerState

-- ContainerMetadata
pub record ContainerMetadata : Type 0 where
  pub name : Text
  pub attempt : ℕ

-- Container, as ListContainers returns it
pub record Container : Type 0 where
  pub id : Text
  pub pod_sandbox_id : Text
  pub metadata : ContainerMetadata
  pub image : Text
  pub state : ContainerState
  pub labels : Map Text
  pub annotations : Map Text

pub record ContainerStatus : Type 0 where
  pub id : Text
  pub metadata : ContainerMetadata
  pub started_at : ℤ
  pub finished_at : ℤ
  pub exit_code : ℤ
  pub image : Text
  pub image_ref : Text
  pub reason : Text
  pub message : Text

-- LinuxContainerResources
pub record Resources : Type 0 where
  pub cpu_period : ℤ
  pub cpu_quota : ℤ
  pub cpu_shares : ℤ
  pub memory_limit : ℤ
  pub oom_score_adj : ℤ
  pub cpuset_cpus : Text
  pub cpuset_mems : Text

-- LinuxContainerSecurityContext, with its Capability
pub record ContainerSecurity : Type 0 where
  pub add_capabilities : List Text
  pub drop_capabilities : List Text
  pub privileged : Bool
  pub namespaces : NamespaceOption
  pub selinux : Option SelinuxOption
  pub run_as_user : Option ℤ
  pub run_as_group : Option ℤ
  pub run_as_username : Text
  pub readonly_rootfs : Bool
  pub supplemental_groups : List ℤ
  pub apparmor_profile : Text
  pub seccomp_profile : Text
  pub no_new_privs : Bool
  pub masked_paths : List Text
  pub readonly_paths : List Text

-- ContainerConfig; `devices` holds the device paths
pub record ContainerConfig : Type 0 where
  pub metadata : ContainerMetadata
  pub image : Text
  pub command : List Text
  pub args : List Text
  pub working_dir : Text
  pub envs : List KeyValue
  pub mounts : List Mount
  pub devices : List Text
  pub labels : Map Text
  pub annotations : Map Text
  pub log_path : Text
  pub stdin : Bool
  pub stdin_once : Bool
  pub tty : Bool
  pub resources : Option Resources
  pub security : ContainerSecurity
