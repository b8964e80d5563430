-- ===== src/Api.antt =====
-- The messages of the daemon's own service (pkg/remote/apis/k3c/v1alpha1), which protoc generates.
-- A getter of a nil message gives the zero values.
use k3c.Prelude.{ℕ, Bool, false, Option, none, some, List, []}
use k3c.Prelude.Text.{Text}
use k3c.Prelude.Maps.{Map}
use k3c.Prelude.Int.{ℤ, pos}
use k3c.Cri.{SelinuxOption, NamespaceMode, pod, DnsConfig, PortMapping, KeyValue, Mount, Resources}

pub record SharedSecurityOptions : Type 0 where
  pub privileged : Bool
  pub selinux_options : Option SelinuxOption
  pub net_mode : NamespaceMode
  pub pid_mode : NamespaceMode
  pub ipc_mode : NamespaceMode
  pub user : Text
  pub group : Text
  pub groups : List Text
  pub readonly_root : Bool
  pub seccomp_profile : Text

abbrev pub no_security : SharedSecurityOptions
no_security = record {
  privileged = false;
  selinux_options = none;
  net_mode = pod;
  pid_mode = pod;
  ipc_mode = pod;
  user = [];
  group = [];
  groups = [];
  readonly_root = false;
  seccomp_profile = [];
}

-- The getters of GetSecurityContext().
abbrev pub get_security : Option SharedSecurityOptions → SharedSecurityOptions
get_security none = no_security
get_security (some s) = s

pub record PodOptions : Type 0 where
  pub hostname : Text
  pub runtime : Text
  pub labels : Map Text
  pub annotations : Map Text
  pub dns_config : Option DnsConfig
  pub port_mappings : List PortMapping
  pub cgroup_parent : Text
  pub sysctls : Map Text
  pub security_context : Option SharedSecurityOptions

abbrev pub no_pod_options : PodOptions
no_pod_options = record {
  hostname = [];
  runtime = [];
  labels = [];
  annotations = [];
  dns_config = none;
  port_mappings = [];
  cgroup_parent = [];
  sysctls = [];
  security_context = none;
}

pub record ContainerOptions : Type 0 where
  pub labels : Map Text
  pub name : Text
  pub attempt : ℕ
  pub command : List Text
  pub args : List Text
  pub working_dir : Text
  pub envs : List KeyValue
  pub mounts : List Mount
  pub devices : List Text
  pub stdin : Bool
  pub stdin_once : Bool
  pub tty : Bool
  pub millis_cpu : ℤ
  pub linux_resources : Option Resources
  pub add_capabilities : List Text
  pub drop_capabilities : List Text
  pub apparmor_profile : List Text
  pub no_new_privs : Bool
  pub masked_paths : List Text
  pub readonly_paths : List Text
  pub security_context : Option SharedSecurityOptions

abbrev pub no_container_options : ContainerOptions
no_container_options = record {
  labels = [];
  name = [];
  attempt = 0;
  command = [];
  args = [];
  working_dir = [];
  envs = [];
  mounts = [];
  devices = [];
  stdin = false;
  stdin_once = false;
  tty = false;
  millis_cpu = pos 0;
  linux_resources = none;
  add_capabilities = [];
  drop_capabilities = [];
  apparmor_profile = [];
  no_new_privs = false;
  masked_paths = [];
  readonly_paths = [];
  security_context = none;
}

pub record ExecOptions : Type 0 where
  pub tty : Bool
  pub stdin : Bool

pub record AttachOptions : Type 0 where
  pub no_stdin : Bool
