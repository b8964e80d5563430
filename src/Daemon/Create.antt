-- ===== src/Daemon/Create.antt =====
-- CreatePod of pkg/daemon/pod.go; CreateContainer and resolveMounts of pkg/daemon/container.go.
-- A random identifier that the code draws is an argument.
pub mod PodRoundTrip
pub mod ContainerRoundTrip
pub mod ResolvedMounts
use k3c.Prelude.{ℕ, ◌+◌, Bool, Option, none, some, List, [], ◌∷◌, ◌++◌, if◌then◌else◌}
use k3c.Prelude.Text.{Text, codes, is_empty}
use k3c.Prelude.Int.{ℤ}
use k3c.Prelude.Decimal.{itoa}
use k3c.Prelude.Results.{Error, Result, ok, err, panic, message, wrap, Exec, and_then, ◌>>=◌}
use k3c.Paths.{join}
use k3c.Cri.{PodConfig, PodSandbox, ContainerConfig, Mount, NamespaceOption}
use k3c.Api.{
  PodOptions, no_pod_options, ContainerOptions, no_container_options, SharedSecurityOptions,
  get_security,
}
use k3c.Volume.{Disk, setup}
use k3c.Daemon.Runtime.{Runtime, Codec, Reply, done, failed, of_reply, replied}
use k3c.Daemon.Config.{store_pod_config, get_pod_config, store_container_config}
use k3c.Daemon.Ids.{to_pod_user, to_id, to_group_ids, to_user_id}

abbrev pub or_default : Text → Text → Text
or_default given default = if is_empty given then default else given

abbrev pub pod_options : Option PodOptions → PodOptions
pod_options none = no_pod_options
pod_options (some o) = o

abbrev pub container_options : Option ContainerOptions → ContainerOptions
container_options none = no_container_options
container_options (some o) = o

abbrev pub namespace_options : SharedSecurityOptions → NamespaceOption
namespace_options s = record { network = s.net_mode; pid = s.pid_mode; ipc = s.ipc_mode }

-- The namespace of containerd's CRI plugin.
abbrev k8s_containerd_namespace : Text
k8s_containerd_namespace = codes "k8s.io"

-- The directory of a pod's logs, or none where the daemon has no path for logs.
unfoldable pub log_directory : Text → Text → Text → Text
log_directory log_path name id =
    if is_empty log_path then [] else join log_path (codes "k3c_" ++ name ++ b'_' ∷ id)

-- The configuration that CreatePod makes of its options, before the annotation.
unfoldable pub pod_config : Text → Text → Text → PodOptions → Result PodConfig
unfolding log_directory
pod_config log_path id name opts = do
  let s = get_security opts.security_context
  group ← wrap (codes "invalid group") (to_id s.group)
  groups ← wrap (codes "parsing groups") (to_group_ids s.groups)
  ok (record {
    metadata = record { name = name; uid = id; namespace = k8s_containerd_namespace };
    hostname = or_default opts.hostname name;
    log_directory = log_directory log_path name id;
    dns_config = opts.dns_config;
    port_mappings = opts.port_mappings;
    labels = opts.labels;
    annotations = opts.annotations;
    cgroup_parent = opts.cgroup_parent;
    security = record {
      namespaces = namespace_options s;
      selinux = s.selinux_options;
      run_as_user = to_pod_user s.user;
      run_as_group = group;
      readonly_rootfs = s.readonly_root;
      supplemental_groups = groups;
      privileged = s.privileged;
      seccomp_profile = s.seccomp_profile;
    };
    sysctls = opts.sysctls;
  })

-- The pod, the name and the ids of groups that a container is created with.
pub record Prepared : Type 0 where
  pub pod : PodConfig
  pub name : Text
  pub group : Option ℤ
  pub groups : List ℤ

-- The configuration that CreateContainer makes, before the annotations.
unfoldable pub container_config : Text → ContainerOptions → Prepared → List Mount → ContainerConfig
container_config image opts p mounts =
    let s = get_security opts.security_context in
    let user = to_user_id s.user in
    record {
      metadata = record { name = p.name; attempt = opts.attempt };
      image = image;
      command = opts.command;
      args = opts.args;
      working_dir = opts.working_dir;
      envs = opts.envs;
      mounts = mounts;
      devices = opts.devices;
      labels = opts.labels;
      annotations = [];
      log_path = join p.name (itoa opts.attempt ++ codes ".log");
      stdin = opts.stdin;
      stdin_once = opts.stdin_once;
      tty = opts.tty;
      resources = opts.linux_resources;
      security = record {
        add_capabilities = opts.add_capabilities;
        drop_capabilities = opts.drop_capabilities;
        privileged = s.privileged;
        namespaces = namespace_options s;
        selinux = s.selinux_options;
        run_as_user = user.1;
        run_as_group = p.group;
        run_as_username = user.0;
        readonly_rootfs = s.readonly_root;
        supplemental_groups = p.groups;
        apparmor_profile = [];
        seccomp_profile = s.seccomp_profile;
        no_new_privs = opts.no_new_privs;
        masked_paths = opts.masked_paths;
        readonly_paths = opts.readonly_paths;
      };
    }

abbrev first_pod : Text → List PodSandbox → Result PodSandbox
first_pod id (p ∷ ps) = ok p
first_pod id [] = err (message (codes "failed to find pod ID " ++ id))

module _ (r : Runtime) (c : Codec) where
  abbrev pub run_stored : Text → Result PodConfig → Exec r.World Text
  run_stored runtime (ok config) w = replied (r.run_pod_sandbox config runtime w)
  run_stored runtime (err e) w = (err e, w)
  run_stored runtime panic w = (panic, w)

  unfoldable pub create_pod : Text → Text → Text → Option PodOptions → Exec r.World Text
  unfolding pod_config
  create_pod log_path id name opts =
      let o = pod_options opts in
      run_stored o.runtime (pod_config log_path id name o >>= store_pod_config c)

  -- What CreateContainer reads and computes before it changes anything.
  unfoldable pub prepare : Text → ContainerOptions → r.World → Result Prepared
  prepare pod_id opts w = do
    pods ← of_reply (r.list_pod_sandbox pod_id w)
    p ← first_pod pod_id pods
    config ← wrap (codes "getting pod config") (get_pod_config c p)
    let s = get_security opts.security_context
    group ← wrap (codes "parsing group") (to_id s.group)
    groups ← wrap (codes "parsing groups") (to_group_ids s.groups)
    ok (record {
      pod = config;
      name = or_default opts.name p.metadata.name;
      group = group;
      groups = groups;
    })

  module _ (d : Disk) (dir : Text) (uuid : ℕ → List ℕ) where
    -- The loop over the mounts, from index `i`; `uuid i` is what is drawn for that mount.
    unfoldable pub resolve_mounts : ℕ → List Mount → Exec d.State (List Mount)
    resolve_mounts i [] s = (ok [], s)
    resolve_mounts i (m ∷ ms) s =
        and_then (setup d dir (uuid i) m s)
          (λ m' t. and_then (resolve_mounts (i + 1) ms t) (λ ms' u. (ok (m' ∷ ms'), u)))

    abbrev pub beside : d.State → Reply Text × r.World → Result Text × (r.World × d.State)
    beside s (a, w) = (of_reply a, (w, s))

    abbrev pub submit :
        Text
        → PodConfig
        → Result ContainerConfig
        → r.World × d.State
        → Result Text × (r.World × d.State)
    submit pod_id pod (ok config) (w, s) = beside s (r.create_container pod_id config pod w)
    submit pod_id pod (err e) ws = (err e, ws)
    submit pod_id pod panic ws = (panic, ws)

    abbrev pub with_log_directory : Prepared → d.State → d.State
    with_log_directory p s =
        if is_empty p.pod.log_directory then s else d.mkdir_all (join p.pod.log_directory p.name) s

    abbrev pub create_prepared :
        Text
        → Text
        → ContainerOptions
        → Result Prepared
        → r.World × d.State
        → Result Text × (r.World × d.State)
    create_prepared pod_id image opts (ok p) (w, s) =
        let (mounts, s') = resolve_mounts 0 opts.mounts (with_log_directory p s) in
        submit pod_id p.pod
          (mounts >>= λ ms. store_container_config c (container_config image opts p ms) opts)
          (w, s')
    create_prepared pod_id image opts (err e) ws = (err e, ws)
    create_prepared pod_id image opts panic ws = (panic, ws)

    unfoldable pub create_container :
        Text
        → Text
        → Option ContainerOptions
        → r.World × d.State
        → Result Text × (r.World × d.State)
    create_container pod_id image opts (w, s) =
        let o = container_options opts in create_prepared pod_id image o (prepare pod_id o w) (w, s)
