-- ===== src/Daemon/Convert.antt =====
-- toContainer and addMount of pkg/daemon/container.go: a container as Kubernetes shows it.
pub mod Mounts
use k3c.Prelude.{
  ℕ, suc, ◌+◌, ◌-◌, ◌*◌, ◌/◌, ◌%◌, ◌^◌, Bool, true, false, Option, none, some, List, [], ◌∷◌, ◌++◌,
  map, any, ltb, if◌then◌else◌,
}
use k3c.Prelude.Text.{Text, codes, is_empty, ◌==◌}
use k3c.Prelude.Maps.{Map, get_or}
use k3c.Prelude.Int.{ℤ, pos, negsuc, lt, is_positive, parse_int}
use k3c.Prelude.Decimal.{itoa}
use k3c.Prelude.Results.{Result, ok, err, panic, ◌>>=◌}
use k3c.Cri
use k3c.Cri.{
  PortMapping, Protocol, tcp, udp, Mount, Propagation, private, host_to_container, bidirectional,
  KeyValue, ContainerConfig, SelinuxOption, Resources,
}
use k3c.Volume.{Kind, host_path, named, ephemeral, path_to_type}
use k3c.Core
use k3c.Core.{
  Volume, VolumeMount, ContainerPort, Requests, Named, Selinux, MountPropagation, none_mode,
}
use k3c.Daemon.Runtime.{Deps}
use k3c.Daemon.Config.{get_container_config}
use k3c.Daemon.Status.{ContainerData}

abbrev pub annotation_cpus : Text
annotation_cpus = codes "k3c.io/cpus"

unfoldable pub to_env : List KeyValue → List Named
to_env = map (λ e. record { name = e.key; value = e.value })

-- The 64 low bits, as an int64.
abbrev signed_64 : ℕ → ℤ
signed_64 m = if ltb m (2 ^ 63) then pos m else negsuc (2 ^ 64 - 1 - m)

-- (cpuMillis * 1024) / 1000 on int64: the product wraps round, and the quotient is cut towards 0.
abbrev times_1024 : ℤ → ℤ
times_1024 (pos n) = signed_64 (n * 1024 % 2 ^ 64)
times_1024 (negsuc n) = signed_64 ((2 ^ 64 - suc n * 1024 % 2 ^ 64) % 2 ^ 64)

abbrev negated : ℕ → ℤ
negated n = if ltb 0 n then negsuc (n - 1) else pos 0

abbrev over_1000 : ℤ → ℤ
over_1000 (pos n) = pos (n / 1000)
over_1000 (negsuc n) = negated (suc n / 1000)

unfoldable pub cpu_shares : ℤ → ℤ
cpu_shares millis =
    let shares = over_1000 (times_1024 millis) in if lt shares (pos 2) then pos 2 else shares

abbrev memory_of : Option Resources → ℤ
memory_of none = pos 0
memory_of (some r) = r.memory_limit

unfoldable pub to_resources : ContainerConfig → Requests
unfolding cpu_shares
to_resources config =
    let mem = memory_of config.resources in
    let cpu = get_or [] annotation_cpus config.annotations in
    record {
      memory = if is_positive mem then some mem else none;
      cpu =
          if is_empty cpu
          then none
          else elim (parse_int cpu) [ none ↦ none | some n ↦ some (cpu_shares n) ];
    }

unfoldable pub bool_pointer : Bool → Option Bool
bool_pointer true = some true
bool_pointer false = none

abbrev pub no_selinux : Selinux
no_selinux = record { user = []; role = []; kind = []; level = [] }

-- The getters of GetSelinuxOptions().
abbrev pub to_selinux : Option SelinuxOption → Selinux
to_selinux none = no_selinux
to_selinux (some s) = record { user = s.user; role = s.role; kind = s.kind; level = s.level }

abbrev to_propagation : Propagation → MountPropagation
to_propagation private = none_mode
to_propagation host_to_container = Core.host_to_container
to_propagation bidirectional = Core.bidirectional

abbrev new_volume : Text → Kind → Mount → Volume
new_volume name host_path m = record { name = name; source = Core.host_path m.host_path }
new_volume name named m = record { name = name; source = Core.empty_dir }
new_volume name ephemeral m = record { name = name; source = Core.empty_dir }

abbrev volume_mount : Text → Mount → VolumeMount
volume_mount name m = record {
  name = name;
  readonly = m.readonly;
  mount_path = m.container_path;
  propagation = to_propagation m.propagation;
}

unfoldable pub add_mount :
    (Text → List ℕ) → List Volume → List VolumeMount → Mount → List Volume × List VolumeMount
add_mount md5 volumes mounts m =
    let (name, kind) = path_to_type md5 m.host_path in
    (
      if any (λ v. v.name == name) volumes then volumes else volumes ++ new_volume name kind m ∷ [],
      mounts ++ volume_mount name m ∷ [],
    )

-- The loop over the mounts.
unfoldable pub add_mounts :
    (Text → List ℕ) → List Volume → List VolumeMount → List Mount → List Volume × List VolumeMount
add_mounts md5 volumes mounts [] = (volumes, mounts)
add_mounts md5 volumes mounts (m ∷ ms) =
    let (volumes', mounts') = add_mount md5 volumes mounts m in add_mounts md5 volumes' mounts' ms

abbrev is_udp : Protocol → Bool
is_udp udp = true
is_udp tcp = false

-- The loop over the port mappings, from index `i`.
unfoldable pub to_ports : ℕ → List PortMapping → List ContainerPort
to_ports i [] = []
to_ports i (p ∷ ps) =
    record {
      name = codes "port" ++ itoa i;
      host_port = p.host_port;
      container_port = p.container_port;
      host_ip = p.host_ip;
      is_udp = is_udp p.protocol;
    }
    ∷ to_ports (i + 1) ps

module _ (deps : Deps) where
  abbrev pub container_of :
      List PortMapping → ContainerData → ContainerConfig → List VolumeMount → Core.Container
  container_of mappings x config volume_mounts = record {
    name = x.container.metadata.name;
    image = x.container.image;
    command = config.command;
    args = config.args;
    working_dir = config.working_dir;
    ports = to_ports 0 mappings;
    env = to_env config.envs;
    resources = to_resources config;
    volume_mounts = volume_mounts;
    security = record {
      add = config.security.add_capabilities;
      drop = config.security.drop_capabilities;
      privileged = bool_pointer config.security.privileged;
      selinux_options = to_selinux config.security.selinux;
      run_as_user = config.security.run_as_user;
      run_as_group = config.security.run_as_group;
      readonly_rootfs = bool_pointer config.security.readonly_rootfs;
    };
    stdin = config.stdin;
    stdin_once = config.stdin_once;
    tty = config.tty;
  }

  unfoldable pub to_container :
      List PortMapping → List Volume → ContainerData → Result (List Volume × Core.Container)
  to_container mappings volumes x = do
    (config, _) ← get_container_config deps.codec x.container
    let r = add_mounts deps.md5 volumes [] config.mounts
    ok (r.0, container_of mappings x config r.1)
