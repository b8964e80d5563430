-- ===== src/Daemon/Create/ContainerRoundTrip.antt =====
-- What CreateContainer gives the runtime, and what listPods shows of it.
use k3c.Prelude.{ℕ, ◌≡◌, refl, sym, ap, ◌∙◌, true, false, Option, none, List, []}
use k3c.Prelude.Text.{Text, codes, ◌==◌}
use k3c.Prelude.Maps.{Map, lookup, insert, get_or, get_or-insert}
use k3c.Prelude.Results.{ok, wrap, wrap-eq-ok, >>=-eq-ok}
use k3c.Cri
use k3c.Cri.{PodConfig, PodSandbox, ContainerConfig, Mount, PortMapping}
use k3c.Api.{ContainerOptions}
use k3c.Core
use k3c.Core.{Volume}
use k3c.Volume.{Disk}
use k3c.Daemon.Runtime.{Runtime, Codec, Deps, IsFaithful, done, of_reply, of_reply-eq-ok}
use k3c.Daemon.Config.{
  annotation_container_config, annotation_user_container_config, store_container_config,
  get_container_config,
}
use k3c.Daemon.Status.{ContainerData}
use k3c.Daemon.Convert.{add_mounts, container_of, to_container, to_env, to_resources}
use k3c.Daemon.Create.{
  container_options, container_config, Prepared, prepare, resolve_mounts, beside,
  with_log_directory, create_container,
}

keys :
    ((annotation_container_config == annotation_container_config) ≡ true)
    × ((annotation_user_container_config == annotation_user_container_config) ≡ true)
    × ((annotation_user_container_config == annotation_container_config) ≡ false)
unfolding ◌==◌
keys = (refl, refl, refl)

-- What is stored in a configuration's annotations is read from a container that has them.
pub get-store_container_config :
    (c : Codec) (config stored : ContainerConfig) (opts : ContainerOptions) (x : Cri.Container)
    → IsFaithful c
    → store_container_config c config opts ≡ ok stored
    → x.annotations ≡ stored.annotations
    → get_container_config c x ≡ ok (config, opts)
unfolding store_container_config get_container_config
get-store_container_config c config stored opts x faithful e same =
    let (json, wrapped, e1) =
      >>=-eq-ok (wrap (codes "marshal pod config") (of_reply (c.marshal_container config))) _ e in
    let (user, wrapped', put) =
      >>=-eq-ok (wrap (codes "marshal container opts") (of_reply (c.marshal_options opts))) _ e1 in
    let marshalled : c.marshal_container config ≡ done json =
      of_reply-eq-ok _ (wrap-eq-ok (codes "marshal pod config") _ wrapped) in
    let marshalled' : c.marshal_options opts ≡ done user =
      of_reply-eq-ok _ (wrap-eq-ok (codes "marshal container opts") _ wrapped') in
    let inner : Map Text = insert annotation_container_config json config.annotations in
    let kept : insert annotation_user_container_config user inner ≡ stored.annotations = cc in
    let there : x.annotations ≡ insert annotation_user_container_config user inner =
      same ∙ sym kept in
    let found : get_or [] annotation_container_config x.annotations ≡ json =
      ap (λ (m : Map Text). get_or [] annotation_container_config m) there
      ∙ get_or-insert [] annotation_container_config annotation_user_container_config user inner
      ∙ rw keys.2 refl
      ∙ get_or-insert [] annotation_container_config annotation_container_config json
          config.annotations
      ∙ rw keys.0 refl in
    let found' : get_or [] annotation_user_container_config x.annotations ≡ user =
      ap (λ (m : Map Text). get_or [] annotation_user_container_config m) there
      ∙ get_or-insert [] annotation_user_container_config annotation_user_container_config user
          inner
      ∙ rw keys.1 refl in
    rw (found, found')
      (rw (faithful.container_config config json marshalled, faithful.options opts user marshalled')
        refl)

-- A container as its options and its resolved mounts describe it, with no CPU share.
pub record ShowsContainer (deps : Deps) (o : ContainerOptions) (mounts : List Mount)
    (volumes : List Volume) (k : Core.Container) : Type 0 where
  pub command : k.command ≡ o.command
  pub args : k.args ≡ o.args
  pub working_dir : k.working_dir ≡ o.working_dir
  pub env : k.env ≡ to_env o.envs
  pub cpu : k.resources.cpu ≡ none
  pub volume_mounts : k.volume_mounts ≡ (add_mounts deps.md5 volumes [] mounts).1
  pub tty : k.tty ≡ o.tty
  pub stdin : k.stdin ≡ o.stdin

shown :
    (deps : Deps) (image : Text) (o : ContainerOptions) (p : Prepared) (mounts : List Mount)
    (mappings : List PortMapping) (volumes : List Volume) (x : ContainerData)
    → get_container_config deps.codec x.container ≡ ok (container_config image o p mounts, o)
    → (vs : List Volume) × (k : Core.Container) × (to_container deps mappings volumes x
        ≡ ok (vs, k))
      × ShowsContainer deps o mounts volumes k
unfolding to_container container_config to_resources lookup
shown deps image o p mounts mappings volumes x e = (
  (add_mounts deps.md5 volumes [] mounts).0,
  container_of deps mappings x (container_config image o p mounts)
      (add_mounts deps.md5 volumes [] mounts).1,
  rw e refl,
  record {
    command = refl;
    args = refl;
    working_dir = refl;
    env = refl;
    cpu = refl;
    volume_mounts = refl;
    tty = refl;
    stdin = refl;
  },
)

-- Over a codec that reads back what it writes, and where the pod is found, the options are valid
-- and the mounts resolve: CreateContainer answers with what the runtime does for the configuration
-- that it makes, in the pod's configuration, on the disk that the mounts leave. Where a container
-- has the annotations of this configuration, it converts, and shows the command, the arguments,
-- the working directory, the environment, the resolved mounts, the terminal and stdin of the
-- options, and never a CPU share.
pub create_container_lem :
    (r : Runtime) (deps : Deps) (d : Disk) (dir : Text) (uuid : ℕ → List ℕ) (pod_id image : Text)
    (opts : Option ContainerOptions) (w : r.World) (s s' : d.State) (p : Prepared)
    (mounts : List Mount) (config : ContainerConfig) (x : ContainerData)
    (mappings : List PortMapping) (volumes : List Volume)
    → IsFaithful deps.codec
    → prepare r deps.codec pod_id (container_options opts) w ≡ ok p
    → resolve_mounts r deps.codec d dir uuid 0
        (container_options opts).mounts
        (with_log_directory r deps.codec d dir uuid p s)
      ≡ (ok mounts, s')
    → store_container_config deps.codec
        (container_config image (container_options opts) p mounts)
        (container_options opts)
      ≡ ok config
    → x.container.annotations ≡ config.annotations
    → (create_container r deps.codec d dir uuid pod_id image opts (w, s)
        ≡ beside r deps.codec d dir uuid s' (r.create_container pod_id config p.pod w))
      × ((vs : List Volume) × (k : Core.Container) × (to_container deps mappings volumes x
            ≡ ok (vs, k))
          × ShowsContainer deps (container_options opts) mounts volumes k)
unfolding create_container
create_container_lem r deps d dir uuid pod_id image opts w s s' p mounts config x mappings volumes
      faithful prepared resolved stored same =
    let o = container_options opts in
    (
      rw (prepared, create_container) (rw resolved (rw stored refl)),
      shown deps image o p mounts mappings volumes x (
          get-store_container_config deps.codec (container_config image o p mounts) config o
            x.container faithful stored same),
    )
