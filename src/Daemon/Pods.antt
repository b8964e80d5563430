-- ===== src/Daemon/Pods.antt =====
-- listPods, toPod and what they call, of pkg/daemon/pod.go.
pub mod Listing
use k3c.Prelude.{
  Bool, true, false, Option, none, some, List, [], ◌∷◌, ◌++◌, map, not, ◌&&◌, if◌then◌else◌,
}
use k3c.Prelude.Text.{
  Text, codes, contains, is_empty, has_prefix, has_suffix, strip_prefix, strip_suffix,
}
use k3c.Prelude.Maps.{Map, lookup, insert, get_or}
use k3c.Prelude.Results.{Error, Result, ok, err, panic, ◌>>=◌, traverse}
use k3c.Cri
use k3c.Cri.{PodSandbox, PodConfig, PortMapping, DnsConfig, NamespaceMode, node, pod, container}
use k3c.Core
use k3c.Core.{Pod, PodSpec, PodStatus, DnsOption, Named, Volume}
use k3c.Daemon.Runtime.{Runtime, Deps, Reply, done, failed, of_reply}
use k3c.Daemon.Config.{get_pod_config}
use k3c.Daemon.Convert.{to_container, to_selinux}
use k3c.Daemon.Status.{ContainerData, PodData, to_pod_start_time, to_phase, to_container_status}

abbrev pub annotation_restart_policy : Text
annotation_restart_policy = codes "k3c.io/restart-policy"

unfoldable pub restart_policy : Map Text → Text
restart_policy annotations =
    let pol = get_or [] annotation_restart_policy annotations in
    if is_empty pol then codes "Never" else pol

unfoldable pub to_sysctl : Map Text → List Named
to_sysctl [] = []
to_sysctl ((k, v) ∷ vals) = record { name = k; value = v } ∷ to_sysctl vals

unfoldable pub to_dns_options : (Text → Text → Text × Text) → List Text → List DnsOption
to_dns_options kv_split [] = []
to_dns_options kv_split (o ∷ os) =
    let (k, v) = kv_split o (codes ":") in
    record { name = k; value = if contains o b':' then some v else none }
    ∷ to_dns_options kv_split os

unfoldable pub to_runtime : Text → Option Text
to_runtime runtime = if is_empty runtime then none else some runtime

-- The annotations of the daemon itself are left out.
unfoldable pub add_strings : Map Text → Map Text → Map Text
add_strings into [] = into
add_strings into ((k, v) ∷ from) =
    add_strings (if has_prefix k (codes "k3c.io/") then into else insert k v into) from

abbrev pub is_mode : NamespaceMode → NamespaceMode → Bool
is_mode node node = true
is_mode pod pod = true
is_mode container container = true
is_mode _ _ = false

abbrev pub servers : Option DnsConfig → List Text
servers none = []
servers (some d) = d.servers

abbrev searches : Option DnsConfig → List Text
searches none = []
searches (some d) = d.searches

abbrev options : Option DnsConfig → List Text
options none = []
options (some d) = d.options

-- The name of a file of CNI results without its prefix and suffix, if it has both.
unfoldable pub result_pod_id : Text → Option Text
result_pod_id name =
    if not (has_prefix name (codes "k3c-net-"))
    then none
    else if not (has_suffix name (codes "-eth0"))
    then none
    else elim (strip_prefix (codes "k3c-net-") name) [
      | none ↦ strip_suffix (codes "-eth0") name
      | some rest ↦ elim (strip_suffix (codes "-eth0") rest) [
        | none ↦ some rest
        | some id ↦ some id
      ]
    ]

abbrev add_result : Option Text → Reply (List Text) → Map (List Text) → Map (List Text)
add_result none ips m = m
add_result (some id) (failed e) m = m
add_result (some id) (done ips) m = insert id ips m

-- The loop over the files of the directory.
unfoldable pub ips_from : List (Text × Reply (List Text)) → Map (List Text) → Map (List Text)
unfolding result_pod_id
ips_from [] m = m
ips_from ((name, ips) ∷ files) m = ips_from files (add_result (result_pod_id name) ips m)

-- An unreadable directory gives the nil map.
unfoldable pub get_ips : Reply (List (Text × Reply (List Text))) → Map (List Text)
unfolding ips_from
get_ips (done files) = ips_from files []
get_ips (failed e) = []

module _ (deps : Deps) where
  abbrev info_of : Reply Text → Text
  info_of (done json) = json
  info_of (failed e) = codes "{}"

  abbrev pub with_container : Pod → Result (List Volume × Core.Container) → Pod
  with_container p (ok (volumes, c)) = record p {
    spec = record p.spec { containers = p.spec.containers ++ c ∷ []; volumes = volumes };
  }
  with_container p _ = p

  -- One round of the loop over the containers.
  unfoldable pub add_container : List PortMapping → Pod → ContainerData → Pod
  add_container mappings p x =
      let labelled = record p {
        labels = add_strings p.labels x.container.labels;
        annotations =
            insert (codes "info.k3c.io/" ++ x.container.metadata.name)
              (info_of (deps.marshal_info x.info))
              (add_strings p.annotations x.container.annotations);
      } in
      with_container labelled (to_container deps mappings p.spec.volumes x)

  -- The rounds after the first have no port mappings.
  unfoldable pub add_later : Pod → List ContainerData → Pod
  unfolding add_container
  add_later p [] = p
  add_later p (x ∷ xs) = add_later (add_container [] p x) xs

  unfoldable pub add_containers : List PortMapping → Pod → List ContainerData → Pod
  unfolding add_container add_later
  add_containers mappings p [] = p
  add_containers mappings p (x ∷ xs) = add_later (add_container mappings p x) xs

  unfoldable pub base_pod : PodData → PodConfig → Pod
  base_pod d config = record {
    uid = d.id;
    creation_timestamp = d.sandbox.created_at;
    name = d.sandbox.metadata.name;
    namespace = d.sandbox.metadata.namespace;
    labels = [];
    annotations = [];
    spec = record {
      volumes = [];
      containers = [];
      restart_policy = restart_policy d.sandbox.annotations;
      host_network = is_mode config.security.namespaces.network node;
      host_pid = is_mode config.security.namespaces.pid node;
      host_ipc = is_mode config.security.namespaces.ipc node;
      share_process_namespace = is_mode config.security.namespaces.pid pod;
      security = record {
        selinux_options = to_selinux config.security.selinux;
        run_as_user = config.security.run_as_user;
        run_as_group = config.security.run_as_group;
        supplemental_groups = config.security.supplemental_groups;
        sysctls = to_sysctl (deps.range Text config.sysctls);
      };
      hostname = config.hostname;
      dns = record {
        nameservers = servers config.dns_config;
        searches = searches config.dns_config;
        options = to_dns_options deps.kv_split (options config.dns_config);
      };
      runtime_class_name = to_runtime d.sandbox.runtime_handler;
    };
    status = record {
      start_time = to_pod_start_time d.containers;
      phase = to_phase d;
      pod_ip = [];
      pod_ips = [];
      container_statuses = to_container_status d.containers;
    };
  }

  unfoldable pub to_pod : PodData → Result Pod
  unfolding base_pod add_containers
  to_pod d = do
    config ← get_pod_config deps.codec d.sandbox
    ok (add_containers config.port_mappings (base_pod d config) d.containers)

  abbrev with_ips : Pod → List Text → Pod
  with_ips p [] = p
  with_ips p (ip ∷ ips) = record p {
    status = record p.status { pod_ip = ip; pod_ips = p.status.pod_ips ++ ip ∷ ips };
  }

  abbrev cons_pod : Map (List Text) → Text → Result Pod → List Pod → List Pod
  cons_pod ips id (ok p) rest = with_ips p (get_or [] id ips) ∷ rest
  cons_pod ips id _ rest = rest

  -- The loop over the map of pods: one that does not convert is logged and left out.
  unfoldable pub to_pods : Map (List Text) → Map PodData → List Pod
  to_pods ips [] = []
  to_pods ips ((_, d) ∷ m) = cons_pod ips d.id (to_pod d) (to_pods ips m)

-- pods[pod.Id] = &podData{…}
unfoldable pub pods_from : List PodSandbox → Map PodData → Map PodData
pods_from [] m = m
pods_from (p ∷ ps) m =
    pods_from ps (insert p.id (record { id = p.id; sandbox = p; containers = [] }) m)

module _ (r : Runtime) (deps : Deps) where
  unfoldable pub status_of : r.World → Cri.Container → Result ContainerData
  status_of w x = do
    (status, info) ← of_reply (r.container_status x.id w)
    ok (record { container = x; info = info; status = status })

  abbrev attach_one : r.World → Cri.Container → Map PodData → Option PodData → Result (Map PodData)
  attach_one w x m none = ok m
  attach_one w x m (some d) = do
    y ← status_of w x
    ok (insert x.pod_sandbox_id (record d { containers = d.containers ++ y ∷ [] }) m)

  -- The loop over the containers.
  unfoldable pub attach_containers :
      r.World → List Cri.Container → Map PodData → Result (Map PodData)
  attach_containers w [] m = ok m
  attach_containers w (x ∷ xs) m =
      attach_one w x m (lookup x.pod_sandbox_id m) >>= λ m'. attach_containers w xs m'

  -- The map of pods with their containers.
  unfoldable pub load_pods : r.World → Result (Map PodData)
  load_pods w = do
    ps ← of_reply (r.list_pod_sandbox [] w)
    xs ← of_reply (r.list_containers [] w)
    attach_containers w xs (pods_from ps [])

  unfoldable pub list_pods : Bool → r.World → Result (List Pod)
  list_pods network w = do
    m ← load_pods w
    let ips = if network then get_ips (r.cni_results w) else []
    ok (to_pods deps ips (deps.range PodData m))
