-- ===== src/Tests/Commands.antt =====
-- `create` on concrete flags.
use k3c.Prelude.{◌≡◌, refl, true, false, none, [], ◌∷◌}
use k3c.Prelude.Text.{Text, codes, ◌==◌, strip_suffix, cut}
use k3c.Prelude.Int.{pos, parse_int, to_int32}
use k3c.Prelude.Results.{Result, ok, err, image_not_found, other, ◌>>=◌}
use k3c.Api.{PodOptions, ContainerOptions}
use k3c.Cri.{PodConfig}
use k3c.Core.{Pod}
use k3c.Ports
use k3c.VolumeFlags
use k3c.Remote.Interface.{Client}
use k3c.Tests.Clients.{idle}
use k3c.Commands.Create.{
  Flags, Libraries, to_shared_options, to_pod_options, to_container_options, pull_image, create,
}
use k3c.Commands.Create.Laws.{
  ShowsFlags, create_lem, create-lost_error, with_pod_errors, without_pods, is_ok,
}
use k3c.Daemon.Config.{store_pod_config}
use k3c.Daemon.Ids.{to_pod_user, to_id, to_group_ids}
use k3c.Daemon.Status.{PodData}
use k3c.Daemon.Pods.{to_pod}
use k3c.Daemon.Create.{pod_config, log_directory}
use k3c.Tests.Codecs.{test_codec, test_codec-IsFaithful}
use k3c.Tests.World.{test_deps}
use k3c.Tests.Values.{web_sandbox, web_data, value}

abbrev pub web_flags : Flags
web_flags = record {
  cap_add = [];
  cap_drop = [];
  cgroup_parent = [];
  cpu_period = pos 0;
  cpu_quota = pos 0;
  cpu_shares = pos 0;
  cpuset_cpus = [];
  cpuset_mems = [];
  cpus = [];
  oom_score_adj = pos 0;
  label = [];
  label_file = [];
  dns = codes "1.1.1.1" ∷ [];
  dns_option = [];
  dns_search = [];
  env = [];
  env_file = [];
  entrypoint = codes "sh";
  group_add = codes "10" ∷ [];
  init = false;
  hostname = [];
  interactive = true;
  name = codes "web";
  read_only = false;
  runtime = [];
  sysctl = [];
  tty = true;
  user = codes "1000";
  workdir = [];
  pid = [];
  net = codes "host";
  ipc = [];
  privileged = false;
  memory = [];
  volume = codes "/data" ∷ [];
  publish = codes "80" ∷ [];
}

abbrev pub test_libraries : Libraries
test_libraries = record {
  read_kv_map = λ files labels. ok [];
  read_env = λ files env. ok [];
  ram_in_bytes = λ t. ok (pos 1);
  parse_millis = λ t. ok (pos 1);
  kv_split = λ t sep. (t, []);
  random_name = codes "happy";
  lookup_auth = λ image. none;
  progress = λ image. ok tt;
}

abbrev client_with : Result Text → Client Unit
client_with pod = record (idle Unit) {
  get_image = λ image w. (err image_not_found, w);
  pull_image = λ image auth w. (ok image, w);
  create_pod = λ name opts w. (pod, w);
  create_container = λ pod_id image opts w. (ok (codes "c1"), w);
}

abbrev flag_options : PodOptions
unfolding to_pod_options Ports.parse Ports.parse_port Ports.split_protocol strip_suffix cut
    parse_int to_int32
flag_options = value (to_pod_options test_libraries web_flags) tt

abbrev flag_container : ContainerOptions
unfolding to_container_options VolumeFlags.parse VolumeFlags.parse_volume VolumeFlags.split_3 cut
flag_container = value (to_container_options test_libraries web_flags []) tt

abbrev flag_config : PodConfig
unfolding pod_config store_pod_config to_shared_options to_pod_user to_id to_group_ids parse_int
    log_directory ◌==◌ flag_options
flag_config =
    value
      (pod_config [] (codes "p1") flag_container.name flag_options >>= store_pod_config test_codec)
      tt

flag_options_made : to_pod_options test_libraries web_flags ≡ ok flag_options
unfolding to_pod_options Ports.parse Ports.parse_port Ports.split_protocol strip_suffix cut
    parse_int to_int32 flag_options
flag_options_made = refl

flag_container_made : to_container_options test_libraries web_flags [] ≡ ok flag_container
unfolding to_container_options VolumeFlags.parse VolumeFlags.parse_volume VolumeFlags.split_3 cut
    flag_container
flag_container_made = refl

flag_config_made :
    (pod_config [] (codes "p1") flag_container.name flag_options >>= store_pod_config test_codec)
    ≡ ok flag_config
unfolding pod_config store_pod_config to_shared_options to_pod_user to_id to_group_ids parse_int
    log_directory ◌==◌ flag_options flag_config
flag_config_made = refl

pulled :
    (pod : Result Text)
    → pull_image (client_with pod) test_libraries (codes "busybox") true false tt
      ≡ (ok (codes "busybox"), tt)
unfolding pull_image
pulled pod = refl

abbrev flag_data : PodData
flag_data = record web_data {
  sandbox = record web_sandbox { annotations = flag_config.annotations };
}

create_lem_example :
    (create (client_with (ok (codes "p1"))) test_libraries web_flags (codes "busybox" ∷ []) false tt
      ≡ (ok (codes "c1"), tt))
    × ((p : Pod) × (to_pod test_deps flag_data ≡ ok p) × ShowsFlags web_flags (codes "web") p)
unfolding to_container_options VolumeFlags.parse VolumeFlags.parse_volume VolumeFlags.split_3 cut
    flag_container
create_lem_example =
    create_lem (client_with (ok (codes "p1"))) test_deps test_libraries web_flags (codes "busybox")
      [] false tt [] (codes "p1") flag_config flag_data test_codec-IsFaithful
      (pulled (ok (codes "p1"))) flag_options_made flag_container_made flag_config_made refl

create-lost_error_example :
    (create
        (with_pod_errors (λ e. other (codes "down")) (client_with (err (other (codes "busy")))))
        test_libraries
        web_flags
        (codes "busybox" ∷ [])
        false
        tt
      ≡ create
          (client_with (err (other (codes "busy"))))
          test_libraries
          web_flags
          (codes "busybox" ∷ [])
          false
          tt)
    × (is_ok
          (create
            (without_pods (other (codes "down")) (client_with (err (other (codes "busy")))))
            test_libraries
            web_flags
            (codes "busybox" ∷ [])
            false
            tt).0
        ≡ true)
unfolding pull_image to_pod_options Ports.parse Ports.parse_port Ports.split_protocol strip_suffix
    cut parse_int to_int32 to_container_options VolumeFlags.parse VolumeFlags.parse_volume
    VolumeFlags.split_3
create-lost_error_example =
    create-lost_error (client_with (err (other (codes "busy")))) test_libraries
      (λ e. other (codes "down")) (other (codes "down")) web_flags (codes "busybox") [] false tt
