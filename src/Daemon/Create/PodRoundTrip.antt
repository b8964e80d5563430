-- ===== src/Daemon/Create/PodRoundTrip.antt =====
-- What CreatePod gives the runtime, and what listPods shows of it.
use k3c.Prelude.{
  ◌≡◌, refl, sym, ap, subst, ◌∙◌, Bool, true, false, Option, List, [], ◌∷◌, if◌then◌else◌,
}
use k3c.Prelude.Text.{Text, codes, ◌==◌, eq_refl, is_empty}
use k3c.Prelude.Maps.{Map, insert, get_or, get_or-insert}
use k3c.Prelude.Results.{Result, ok, err, panic, wrap, ◌>>=◌, >>=-eq-ok, wrap-eq-ok}
use k3c.Cri.{PodConfig, PodSandbox, PortMapping, node}
use k3c.Api.{PodOptions, get_security}
use k3c.Core.{Pod, PodSpec, Volume}
use k3c.Core
use k3c.Daemon.Runtime.{Runtime, Codec, Deps, IsFaithful, done, of_reply, replied, of_reply-eq-ok}
use k3c.Daemon.Config.{annotation_pod_config, store_pod_config, get_pod_config}
use k3c.Daemon.Ids.{to_pod_user, to_id, to_group_ids}
use k3c.Daemon.Status.{PodData, ContainerData}
use k3c.Daemon.Convert.{to_container}
use k3c.Daemon.Pods.{
  restart_policy, annotation_restart_policy, is_mode, servers, base_pod, add_container, add_later,
  add_containers, with_container, to_pod,
}
use k3c.Daemon.Create.{
  namespace_options, or_default, pod_options, pod_config, run_stored, create_pod,
}

-- The part of a spec that no container changes.
abbrev Fixed : Type 0
Fixed = Text × Text × (Bool × Bool × Bool × Bool) × Core.PodSecurityContext × Core.PodDns

abbrev fixed : PodSpec → Fixed
fixed s = (
  s.restart_policy,
  s.hostname,
  (s.host_network, s.host_pid, s.host_ipc, s.share_process_namespace),
  s.security,
  s.dns,
)

with_container-fixed :
    (deps : Deps) (p : Pod) (x : Result (List Volume × Core.Container))
    → fixed (with_container deps p x).spec ≡ fixed p.spec
with_container-fixed deps p (ok _) = refl
with_container-fixed deps p (err e) = refl
with_container-fixed deps p panic = refl

add_container-fixed :
    (deps : Deps) (ms : List PortMapping) (p : Pod) (x : ContainerData)
    → fixed (add_container deps ms p x).spec ≡ fixed p.spec
unfolding add_container
add_container-fixed deps ms p x =
    with_container-fixed deps _ (to_container deps ms p.spec.volumes x)

add_later-fixed :
    (deps : Deps) (p : Pod) (xs : List ContainerData)
    → fixed (add_later deps p xs).spec ≡ fixed p.spec
unfolding add_later
add_later-fixed deps p [] = refl
add_later-fixed deps p (x ∷ xs) =
    add_later-fixed deps (add_container deps [] p x) xs ∙ add_container-fixed deps [] p x

add_containers-fixed :
    (deps : Deps) (ms : List PortMapping) (p : Pod) (xs : List ContainerData)
    → fixed (add_containers deps ms p xs).spec ≡ fixed p.spec
unfolding add_containers
add_containers-fixed deps ms p [] = refl
add_containers-fixed deps ms p (x ∷ xs) =
    add_later-fixed deps (add_container deps ms p x) xs ∙ add_container-fixed deps ms p x

same_key : (annotation_pod_config == annotation_pod_config) ≡ true
same_key = eq_refl annotation_pod_config

other_key : (annotation_pod_config == annotation_restart_policy) ≡ false
unfolding ◌==◌
other_key = refl

restart_policy-insert :
    (json : Text) (m : Map Text)
    → restart_policy (insert annotation_pod_config json m) ≡ restart_policy m
unfolding restart_policy
restart_policy-insert json m =
    let same : get_or [] annotation_restart_policy (insert annotation_pod_config json m)
        ≡ get_or [] annotation_restart_policy m =
      get_or-insert [] annotation_restart_policy annotation_pod_config json m ∙ rw other_key refl in
    ap (λ (pol : Text). if is_empty pol then codes "Never" else pol) same

-- What is stored in a configuration's annotations is read from a sandbox that has them.
pub get-store_pod_config :
    (c : Codec) (config stored : PodConfig) (p : PodSandbox)
    → IsFaithful c
    → store_pod_config c config ≡ ok stored
    → p.annotations ≡ stored.annotations
    → (get_pod_config c p ≡ ok config)
      × (restart_policy p.annotations ≡ restart_policy config.annotations)
unfolding store_pod_config get_pod_config
get-store_pod_config c config stored p faithful e same =
    let (json, wrapped, put) =
      >>=-eq-ok (wrap (codes "marshal pod config") (of_reply (c.marshal_pod config))) _ e in
    let marshalled : c.marshal_pod config ≡ done json =
      of_reply-eq-ok _ (wrap-eq-ok (codes "marshal pod config") _ wrapped) in
    let kept : insert annotation_pod_config json config.annotations ≡ stored.annotations = cc in
    let there : p.annotations ≡ insert annotation_pod_config json config.annotations =
      same ∙ sym kept in
    let found : get_or [] annotation_pod_config p.annotations ≡ json =
      ap (λ (m : Map Text). get_or [] annotation_pod_config m) there
      ∙ get_or-insert [] annotation_pod_config annotation_pod_config json config.annotations
      ∙ rw same_key refl in
    (
      ap (λ t. of_reply (c.unmarshal_pod t)) found
          ∙ ap of_reply (faithful.pod_config config json marshalled),
      ap restart_policy there ∙ restart_policy-insert json config.annotations,
    )

-- A pod as its options describe it.
pub record Shows (o : PodOptions) (name : Text) (p : Pod) : Type 0 where
  pub hostname : p.spec.hostname ≡ or_default o.hostname name
  pub restart : p.spec.restart_policy ≡ restart_policy o.annotations
  pub host_network : p.spec.host_network ≡ is_mode (get_security o.security_context).net_mode node
  pub host_pid : p.spec.host_pid ≡ is_mode (get_security o.security_context).pid_mode node
  pub host_ipc : p.spec.host_ipc ≡ is_mode (get_security o.security_context).ipc_mode node
  pub user : p.spec.security.run_as_user ≡ to_pod_user (get_security o.security_context).user
  pub group : to_id (get_security o.security_context).group ≡ ok p.spec.security.run_as_group
  pub groups :
      to_group_ids (get_security o.security_context).groups ≡ ok p.spec.security.supplemental_groups
  pub nameservers : p.spec.dns.nameservers ≡ servers o.dns_config

-- The fields of the configuration that a pod shows, in terms of the options.
abbrev Described : PodOptions → Text → PodConfig → Type 0
Described o name config =
    (config.hostname ≡ or_default o.hostname name)
    × (config.annotations ≡ o.annotations)
    × (config.security.namespaces ≡ namespace_options (get_security o.security_context))
    × (config.security.run_as_user ≡ to_pod_user (get_security o.security_context).user)
    × (to_id (get_security o.security_context).group ≡ ok config.security.run_as_group)
    × (to_group_ids (get_security o.security_context).groups
        ≡ ok config.security.supplemental_groups)
    × (config.dns_config ≡ o.dns_config)

ok-injective : {A : Type 0} {a b : A} → ok a ≡ ok b → a ≡ b
ok-injective e = cc

pod_config-Described :
    (log_path id name : Text) (o : PodOptions) (config : PodConfig)
    → pod_config log_path id name o ≡ ok config
    → Described o name config
unfolding pod_config
pod_config-Described log_path id name o config e =
    let s = get_security o.security_context in
    let (group, one, e1) = >>=-eq-ok (wrap (codes "invalid group") (to_id s.group)) _ e in
    let (groups, two, e2) =
      >>=-eq-ok (wrap (codes "parsing groups") (to_group_ids s.groups)) _ e1 in
    subst (Described o name) (ok-injective e2) (
      refl,
      refl,
      refl,
      refl,
      wrap-eq-ok (codes "invalid group") _ one,
      wrap-eq-ok (codes "parsing groups") _ two,
      refl,
    )

shown :
    (deps : Deps) (o : PodOptions) (name : Text) (config : PodConfig) (d : PodData)
    → Described o name config
    → restart_policy d.sandbox.annotations ≡ restart_policy config.annotations
    → Shows o name (add_containers deps config.port_mappings (base_pod deps d config) d.containers)
unfolding base_pod
shown deps o name config d (host, annotations, namespaces, user, group, groups, dns) restart =
    let kept =
      add_containers-fixed deps config.port_mappings (base_pod deps d config) d.containers in
    record {
      hostname = ap (λ f. f.1) kept ∙ host;
      restart = ap (λ f. f.0) kept ∙ restart ∙ ap restart_policy annotations;
      host_network = ap (λ f. f.2.0) kept ∙ ap (λ n. is_mode n.network node) namespaces;
      host_pid = ap (λ f. f.2.1) kept ∙ ap (λ n. is_mode n.pid node) namespaces;
      host_ipc = ap (λ f. f.2.2) kept ∙ ap (λ n. is_mode n.ipc node) namespaces;
      user = ap (λ f. f.3.run_as_user) kept ∙ user;
      group = group ∙ ap (λ f. ok f.3.run_as_group) (sym kept);
      groups = groups ∙ ap (λ f. ok f.3.supplemental_groups) (sym kept);
      nameservers = ap (λ f. f.4.nameservers) kept ∙ ap servers dns;
    }

-- The half of the round trip that reads.
pub to_pod-Shows :
    (deps : Deps) (log_path id name : Text) (o : PodOptions) (config : PodConfig) (d : PodData)
    → IsFaithful deps.codec
    → (pod_config log_path id name o >>= store_pod_config deps.codec) ≡ ok config
    → d.sandbox.annotations ≡ config.annotations
    → (p : Pod) × (to_pod deps d ≡ ok p) × Shows o name p
unfolding to_pod
to_pod-Shows deps log_path id name o stored d faithful e same =
    let (config, made, put) =
      >>=-eq-ok (pod_config log_path id name o) (store_pod_config deps.codec) e in
    let (read, restart) =
      get-store_pod_config deps.codec config stored d.sandbox faithful put same in
    (
      add_containers deps config.port_mappings (base_pod deps d config) d.containers,
      rw read refl,
      shown deps o name config d (pod_config-Described log_path id name o config made) restart,
    )

-- Over a codec that reads back what it writes, and where the options are valid: CreatePod answers
-- with what the runtime does for the configuration that it makes. Where a sandbox has the
-- annotations of this configuration, its pod converts, whatever its containers are, and shows what
-- the options say: the host name (the pod's own name if there is none), the restart policy, the
-- namespaces that are the host's, the user, the groups and the name servers.
pub create_pod_lem :
    (r : Runtime) (deps : Deps) (log_path id name : Text) (opts : Option PodOptions) (w : r.World)
    (config : PodConfig) (d : PodData)
    → IsFaithful deps.codec
    → (pod_config log_path id name (pod_options opts) >>= store_pod_config deps.codec) ≡ ok config
    → d.sandbox.annotations ≡ config.annotations
    → (create_pod r deps.codec log_path id name opts w
        ≡ replied (r.run_pod_sandbox config (pod_options opts).runtime w))
      × ((p : Pod) × (to_pod deps d ≡ ok p) × Shows (pod_options opts) name p)
unfolding create_pod
create_pod_lem r deps log_path id name opts w stored d faithful e same = (
  ap (λ m. run_stored r deps.codec (pod_options opts).runtime m w) e,
  to_pod-Shows deps log_path id name (pod_options opts) stored d faithful e same,
)
