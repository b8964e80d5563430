-- ===== src/Tests/Values.antt =====
-- A pod with one container, as the daemon stores it, and worlds that have it.
use k3c.Prelude.{ℕ, ◌≡◌, refl, true, false, some, List, [], ◌∷◌, any}
use k3c.Prelude.Text.{Text, codes, strip_prefix, has_prefix, ◌==◌}
use k3c.Prelude.Maps.{lookup, insert}
use k3c.Prelude.Int.{pos, parse_int, to_int32}
use k3c.Prelude.Decimal.{itoa}
use k3c.Prelude.Results.{Result, ok, err, panic, ◌>>=◌}
use k3c.Paths.{join, clean, components, split, push_component}
use k3c.Cri
use k3c.Cri.{PodConfig, PodSandbox, ContainerConfig, Mount, private, node, ready, exited}
use k3c.Api.{PodOptions, no_pod_options, no_security, ContainerOptions, no_container_options}
use k3c.Volume.{default_volume_dir, setup, create_volume, matches_name, hex_encode, resolve}
use k3c.Daemon.Runtime.{done}
use k3c.Daemon.Config.{
  store_pod_config, get_pod_config, store_container_config, get_container_config,
}
use k3c.Daemon.Ids.{to_pod_user, to_id, to_group_ids, to_user_id}
use k3c.Daemon.Status.{PodData, ContainerData, container_state, to_container_status}
use k3c.Daemon.Create.{
  pod_config, log_directory, container_config, Prepared, prepare, resolve_mounts,
  with_log_directory,
}
use k3c.Tests.Codecs.{test_codec}
use k3c.Core
use k3c.Core.{Pod}
use k3c.Daemon.Convert.{to_container}
use k3c.Daemon.Containers.{Found, get_container, find_pod, find_status, find_container}
use k3c.Daemon.Pods.{
  list_pods, load_pods, attach_containers, status_of, pods_from, get_ips, ips_from, to_pods, to_pod,
  add_containers, base_pod, add_container,
}
use k3c.Tests.World.{TestWorld, test_runtime, test_disk, test_deps}

abbrev pub IsOk : {A : Type 0} → Result A → Type 0
IsOk (ok _) = Unit
IsOk (err _) = ⊥
IsOk panic = ⊥

abbrev pub value : {A : Type 0} (x : Result A) → IsOk x → A
value (ok a) h = a
value (err _) h = absurd h
value panic h = absurd h

abbrev pub web_options : PodOptions
web_options = record no_pod_options {
  security_context =
      some (record no_security { user = codes "1000"; groups = codes "10" ∷ []; net_mode = node });
}

abbrev pub web_config : PodConfig
unfolding pod_config log_directory to_pod_user to_id to_group_ids parse_int store_pod_config insert
    lookup ◌==◌
web_config =
    value (pod_config [] (codes "p1") (codes "web") web_options >>= store_pod_config test_codec) tt

abbrev pub web_sandbox : PodSandbox
web_sandbox = record {
  id = codes "p1";
  metadata = web_config.metadata;
  state = ready;
  created_at = pos 1;
  labels = [];
  annotations = web_config.annotations;
  runtime_handler = [];
}

abbrev pub empty_world : TestWorld
empty_world = record { pods = []; containers = [] }

abbrev pub one_pod : TestWorld
one_pod = record { pods = web_sandbox ∷ []; containers = [] }

abbrev bind : Text → Text → Mount
bind src dest = record {
  host_path = src;
  container_path = dest;
  readonly = false;
  propagation = private;
}

-- An absolute path, a named volume and a volume of its own.
abbrev pub web_mounts : List Mount
web_mounts =
    bind (codes "/etc") (codes "/etc")
    ∷ bind (codes "data") (codes "/data")
    ∷ bind [] (codes "/tmp")
    ∷ []

abbrev pub sh_options : ContainerOptions
sh_options = record no_container_options {
  command = codes "sh" ∷ [];
  mounts = web_mounts;
  tty = true;
}

abbrev pub uuids : ℕ → List ℕ
uuids i = i ∷ 17 ∷ 255 ∷ []

abbrev pub sh_prepared : Prepared
unfolding prepare to_id to_group_ids parse_int get_pod_config lookup ◌==◌ web_config
sh_prepared = value (prepare test_runtime test_codec (codes "p1") sh_options one_pod) tt

abbrev pub sh_mounts : List Mount
unfolding resolve_mounts setup create_volume matches_name hex_encode resolve has_prefix strip_prefix
    join clean components split push_component ◌==◌
sh_mounts =
    value
      (resolve_mounts test_runtime test_codec test_disk default_volume_dir uuids 0 web_mounts []).0
      tt

abbrev pub sh_config : ContainerConfig
unfolding container_config to_user_id store_container_config insert
sh_config =
    value
      (store_container_config test_codec
        (container_config (codes "busybox") sh_options sh_prepared sh_mounts) sh_options)
      tt

abbrev pub sh_container : Cri.Container
sh_container = record {
  id = codes "c-web";
  pod_sandbox_id = codes "p1";
  metadata = sh_config.metadata;
  image = codes "busybox";
  state = Cri.running;
  labels = [];
  annotations = sh_config.annotations;
}

abbrev pub sh_data : ContainerData
sh_data = record {
  container = sh_container;
  info = [];
  status = record {
    id = codes "c-web";
    metadata = sh_config.metadata;
    started_at = pos 5;
    finished_at = pos 0;
    exit_code = pos 0;
    image = codes "busybox";
    image_ref = codes "busybox";
    reason = [];
    message = [];
  };
}

abbrev pub web_data : PodData
web_data = record { id = codes "p1"; sandbox = web_sandbox; containers = sh_data ∷ [] }

abbrev pub running_world : TestWorld
running_world = record { pods = web_sandbox ∷ []; containers = sh_container ∷ [] }

pub web_config_made :
    (pod_config [] (codes "p1") (codes "web") web_options >>= store_pod_config test_codec)
    ≡ ok web_config
unfolding pod_config log_directory to_pod_user to_id to_group_ids parse_int store_pod_config insert
    lookup ◌==◌ web_config
web_config_made = refl

pub sh_options_prepared :
    prepare test_runtime test_codec (codes "p1") sh_options one_pod ≡ ok sh_prepared
unfolding prepare to_id to_group_ids parse_int get_pod_config lookup ◌==◌ web_config sh_prepared
sh_options_prepared = refl

pub sh_mounts_resolved :
    resolve_mounts test_runtime test_codec test_disk default_volume_dir uuids 0 web_mounts
      (with_log_directory test_runtime test_codec test_disk default_volume_dir uuids sh_prepared [])
    ≡ (ok sh_mounts, codes "/var/lib/rancher/k3c/volumes/0211ff" ∷ [])
unfolding resolve_mounts setup create_volume matches_name hex_encode resolve has_prefix strip_prefix
    join clean components split push_component ◌==◌ sh_mounts prepare to_id to_group_ids parse_int
    get_pod_config lookup web_config sh_prepared
sh_mounts_resolved = refl

pub sh_config_stored :
    store_container_config test_codec
      (container_config (codes "busybox") sh_options sh_prepared sh_mounts)
      sh_options
    ≡ ok sh_config
unfolding store_container_config container_config insert to_user_id sh_config
sh_config_stored = refl

-- The pod that the daemon shows of the running world.
abbrev pub shown_pod : Pod
unfolding to_pod get_pod_config add_containers base_pod lookup ◌==◌ web_config
shown_pod = value (to_pod test_deps web_data) tt

pub shown_listed : list_pods test_runtime test_deps true running_world ≡ ok (shown_pod ∷ [])
unfolding list_pods load_pods attach_containers status_of pods_from insert lookup get_ips ips_from
    to_pods to_pod get_pod_config add_containers base_pod ◌==◌ web_config sh_config shown_pod
    sh_mounts itoa get_container_config
shown_listed = refl

-- What GetContainer finds in the running world.
abbrev pub sh_found : Found
unfolding get_container find_pod find_status find_container list_pods load_pods attach_containers
    status_of pods_from insert get_ips ips_from to_pods add_container to_container
    get_container_config to_container_status has_prefix strip_prefix sh_prepared to_pod
    get_pod_config add_containers base_pod lookup ◌==◌ web_config sh_config shown_pod sh_mounts itoa
sh_found = value (get_container test_runtime test_deps (codes "web") running_world) tt

pub sh_found_there : get_container test_runtime test_deps (codes "web") running_world ≡ ok sh_found
unfolding get_container find_pod find_status find_container list_pods load_pods attach_containers
    status_of pods_from insert get_ips ips_from to_pods add_container to_container
    get_container_config to_container_status has_prefix strip_prefix sh_prepared sh_found to_pod
    get_pod_config add_containers base_pod lookup ◌==◌ web_config sh_config shown_pod sh_mounts itoa
sh_found_there = refl

pub sh_found_listed :
    test_runtime.list_containers sh_found.id running_world ≡ done (sh_container ∷ [])
unfolding get_container find_pod find_status find_container list_pods load_pods attach_containers
    status_of pods_from insert get_ips ips_from to_pods add_container to_container
    get_container_config to_container_status has_prefix strip_prefix sh_prepared sh_found to_pod
    get_pod_config add_containers base_pod lookup ◌==◌ web_config sh_config shown_pod sh_mounts itoa
sh_found_listed = refl

-- The configuration of the pod before its annotation.
abbrev pub web_written : PodConfig
unfolding pod_config log_directory to_pod_user to_id to_group_ids parse_int ◌==◌
web_written = value (pod_config [] (codes "p1") (codes "web") web_options) tt

pub web_written_stored : store_pod_config test_codec web_written ≡ ok web_config
unfolding pod_config log_directory to_pod_user to_id to_group_ids parse_int store_pod_config insert
    lookup ◌==◌ web_config web_written
web_written_stored = refl

abbrev pub sh_status : Core.ContainerStatus
unfolding container_state
sh_status = record {
  name = codes "web";
  state = container_state sh_data.status;
  restart_count = pos 0;
  image = codes "busybox";
  image_id = codes "busybox";
  container_id = codes "c-web";
}

pub shown_status : shown_pod.status.container_statuses ≡ sh_status ∷ []
unfolding to_container_status add_container to_container to_int32 sh_prepared sh_status to_pod
    get_pod_config add_containers base_pod lookup ◌==◌ web_config sh_config shown_pod sh_mounts itoa
    get_container_config
shown_status = refl

pub shown_named : any (λ c. c.name == sh_status.name) shown_pod.spec.containers ≡ true
unfolding add_container to_container sh_prepared sh_status to_pod get_pod_config add_containers
    base_pod lookup ◌==◌ web_config sh_config shown_pod sh_mounts itoa get_container_config
shown_named = refl
