-- ===== src/Commands/Create.antt =====
-- cmd/create/create.go: from the flags of `create` and `run` to a pod with a container. The readers of
-- files of labels and variables, the parsers of sizes and fractions, kv.Split of wrangler and the
-- random name are parameters.
pub mod Laws
pub mod Remote
pub mod Served
use k3c.Prelude.{
  ℕ, Bool, true, false, not, Option, none, some, List, [], ◌∷◌, ◌++◌, ◌&&◌, if◌then◌else◌,
}
use k3c.Prelude.Text.{Text, codes, is_empty, ◌==◌}
use k3c.Prelude.Maps.{Map}
use k3c.Prelude.Int.{ℤ, pos}
use k3c.Prelude.Results.{
  Error, Result, ok, err, panic, image_not_found, wrapped, message, other, container_not_found,
  wrap, Exec, and_then, ◌>>=◌,
}
use k3c.Cri.{KeyValue, NamespaceMode, node, pod}
use k3c.Api.{SharedSecurityOptions, no_security, PodOptions, ContainerOptions, no_container_options}
use k3c.Ports
use k3c.VolumeFlags
use k3c.Daemon.Images.{Image, AuthConfig}
use k3c.Remote.Interface.{Client}

-- type Create, as far as it is read
pub record Flags : Type 0 where
  pub cap_add : List Text
  pub cap_drop : List Text
  pub cgroup_parent : Text
  pub cpu_period : ℤ
  pub cpu_quota : ℤ
  pub cpu_shares : ℤ
  pub cpuset_cpus : Text
  pub cpuset_mems : Text
  pub cpus : Text
  pub oom_score_adj : ℤ
  pub label : List Text
  pub label_file : List Text
  pub dns : List Text
  pub dns_option : List Text
  pub dns_search : List Text
  pub env : List Text
  pub env_file : List Text
  pub entrypoint : Text
  pub group_add : List Text
  pub init : Bool
  pub hostname : Text
  pub interactive : Bool
  pub name : Text
  pub read_only : Bool
  pub runtime : Text
  pub sysctl : Map Text
  pub tty : Bool
  pub user : Text
  pub workdir : Text
  pub pid : Text
  pub net : Text
  pub ipc : Text
  pub privileged : Bool
  pub memory : Text
  pub volume : List Text
  pub publish : List Text

-- kvfile.ReadKVMap and ReadEnv, units.RAMInBytes, strconv.ParseFloat times 1000 as an int64, kv.Split,
-- name.Random and auth.Lookup. The progress is what PullProgress and its display end with.
pub record Libraries : Type 0 where
  pub read_kv_map : List Text → List Text → Result (Map Text)
  pub read_env : List Text → List Text → Result (List KeyValue)
  pub ram_in_bytes : Text → Result ℤ
  pub parse_millis : Text → Result ℤ
  pub kv_split : Text → Text → Text × Text
  pub random_name : Text
  pub lookup_auth : Text → Option AuthConfig
  pub progress : Text → Result (Unit {0})

-- PID and IPC mode and network of the host
abbrev pub host_mode : Text → NamespaceMode
host_mode flag = if flag == codes "host" then node else pod

-- The user and the groups are the container's alone. Init sets the mode of a PID namespace to the
-- one that it has.
unfoldable pub to_shared_options : Libraries → Flags → Bool → SharedSecurityOptions
to_shared_options libs c for_pod =
    let (user, group) = libs.kv_split c.user (codes ":") in
    record no_security {
      privileged = c.privileged;
      readonly_root = c.read_only;
      user = if for_pod then [] else user;
      group = if for_pod then [] else group;
      groups = if for_pod then [] else c.group_add;
      ipc_mode = host_mode c.ipc;
      pid_mode = host_mode c.pid;
      net_mode = host_mode c.net;
    }

unfoldable pub to_pod_options : Libraries → Flags → Result PodOptions
to_pod_options libs c = do
  ports ← Ports.parse c.publish
  ok (record {
    hostname = c.hostname;
    runtime = c.runtime;
    labels = [];
    annotations = [];
    dns_config = some (record { servers = c.dns; searches = c.dns_search; options = c.dns_option });
    port_mappings = ports;
    cgroup_parent = c.cgroup_parent;
    sysctls = c.sysctl;
    security_context = some (to_shared_options libs c true);
  })

abbrev memory_of : Libraries → Text → Result ℤ
memory_of libs memory = if is_empty memory then ok (pos 0) else libs.ram_in_bytes memory

abbrev millis_of : Libraries → Text → Result ℤ
millis_of libs cpus =
    if is_empty cpus then ok (pos 0) else wrap (codes "parsing " ++ cpus) (libs.parse_millis cpus)

unfoldable pub to_container_options : Libraries → Flags → List Text → Result ContainerOptions
to_container_options libs c args = do
  labels ← libs.read_kv_map c.label_file c.label
  env ← libs.read_env c.env_file c.env
  memory ← memory_of libs c.memory
  cpus ← millis_of libs c.cpus
  mounts ← VolumeFlags.parse c.volume
  ok (record no_container_options {
    labels = labels;
    name = if is_empty c.name then libs.random_name else c.name;
    command = if is_empty c.entrypoint then [] else c.entrypoint ∷ [];
    args = args;
    working_dir = c.workdir;
    envs = env;
    mounts = mounts;
    stdin = c.interactive;
    tty = c.tty;
    millis_cpu = cpus;
    linux_resources = some (record {
      cpu_period = c.cpu_period;
      cpu_quota = c.cpu_quota;
      cpu_shares = c.cpu_shares;
      memory_limit = memory;
      oom_score_adj = c.oom_score_adj;
      cpuset_cpus = c.cpuset_cpus;
      cpuset_mems = c.cpuset_mems;
    });
    add_capabilities = c.cap_add;
    drop_capabilities = c.cap_drop;
    security_context = some (to_shared_options libs c false);
  })

abbrev pub options_of :
    Libraries → Flags → List Text → Bool → Result (PodOptions × ContainerOptions)
options_of libs c args stdin_once = do
  pod_options ← to_pod_options libs c
  container_options ← to_container_options libs c args
  ok (pod_options, record container_options { stdin_once = stdin_once })

-- GetImage, where a missing image is none; the comparison is with the very error.
abbrev pub existing : Result Image → Result (Option Image)
existing (ok i) = ok (some i)
existing (err image_not_found) = ok none
existing (err (wrapped t e)) = err (wrapped t e)
existing (err (message t)) = err (message t)
existing (err (other t)) = err (other t)
existing (err container_not_found) = err container_not_found
existing panic = panic

abbrev pub forced : Bool → Option Image → Option Image
forced true i = none
forced false i = i

module _ {W : Type 0} (cl : Client W) (libs : Libraries) where
  -- eg.Wait, for the progress of the image that was asked for.
  abbrev pub waited : Text → Text → Bool → Result Text
  waited asked pulled true = libs.progress asked >>= λ _. ok pulled
  waited asked pulled false = ok pulled

  abbrev pub pull : Text → Bool → Exec W Text
  pull image show w =
      and_then (cl.pull_image image (libs.lookup_auth image) w)
        (λ pulled w'. (waited image pulled show, w'))

  -- The first digest of the image that is there.
  abbrev pub pull_unless_digest : Text → List Text → Exec W Text
  pull_unless_digest image [] w = pull image false w
  pull_unless_digest image (d ∷ ds) w = (ok d, w)

  abbrev pub pull_unless : Text → Bool → Option Image → Exec W Text
  pull_unless image show none w = pull image show w
  pull_unless image show (some i) w = pull_unless_digest image i.digests w

  -- `show` is whether there is a writer for the progress.
  unfoldable pub pull_image : Text → Bool → Bool → Exec W Text
  pull_image image show force w =
      let (i, w1) = cl.get_image image w in
      and_then (existing i, w1) (λ found w'. pull_unless image show (forced force found) w')

  abbrev pub created_in : Text → ContainerOptions → Result Text × W → Result Text × W
  created_in image opts (ok pod_id, w) = cl.create_container pod_id image (some opts) w
  created_in image opts (err e, w) = (ok [], w)
  created_in image opts (panic, w) = (panic, w)

  -- An error of CreatePod is dropped: the result is then the empty id.
  unfoldable pub create : Flags → List Text → Bool → Exec W Text
  unfolding pull_image
  create c [] stdin_once w =
      (err (message (codes "\"create\" requires at least 1 argument, see --help")), w)
  create c (image ∷ args) stdin_once w = and_then (pull_image image true false w) (λ _ w1.
      and_then (options_of libs c args stdin_once, w1)
        (λ opts w2. created_in image opts.1 (cl.create_pod opts.1.name (some opts.0) w2)))
