-- ===== src/Daemon/Config.antt =====
-- How the daemon keeps its own configuration in the annotations of what it creates:
-- storePodConfig, getPodConfig, storeContainerConfig and getContainerConfig.
use k3c.Prelude.{[]}
use k3c.Prelude.Text.{Text, codes}
use k3c.Prelude.Maps.{insert, get_or}
use k3c.Prelude.Results.{Result, ok, wrap, ◌>>=◌}
use k3c.Cri.{PodConfig, PodSandbox, Container, ContainerConfig}
use k3c.Api.{ContainerOptions}
use k3c.Daemon.Runtime.{Codec, of_reply}

abbrev pub annotation_pod_config : Text
annotation_pod_config = codes "k3c.io/pod-config"

abbrev pub annotation_container_config : Text
annotation_container_config = codes "k3c.io/container-config"

abbrev pub annotation_user_container_config : Text
annotation_user_container_config = codes "k3c.io/user-container-config"

module _ (c : Codec) where
  -- The JSON is that of the configuration before the annotation is added.
  unfoldable pub store_pod_config : PodConfig → Result PodConfig
  store_pod_config config = do
    json ← wrap (codes "marshal pod config") (of_reply (c.marshal_pod config))
    ok (record config { annotations = insert annotation_pod_config json config.annotations })

  unfoldable pub get_pod_config : PodSandbox → Result PodConfig
  get_pod_config p = of_reply (c.unmarshal_pod (get_or [] annotation_pod_config p.annotations))

  unfoldable pub store_container_config :
      ContainerConfig → ContainerOptions → Result ContainerConfig
  store_container_config config opts = do
    json ← wrap (codes "marshal pod config") (of_reply (c.marshal_container config))
    user ← wrap (codes "marshal container opts") (of_reply (c.marshal_options opts))
    ok (record config {
      annotations =
          insert annotation_user_container_config user
            (insert annotation_container_config json config.annotations);
    })

  unfoldable pub get_container_config : Container → Result (ContainerConfig × ContainerOptions)
  get_container_config x = do
    config ← of_reply (c.unmarshal_container (get_or [] annotation_container_config x.annotations))
    opts ← of_reply (c.unmarshal_options (get_or [] annotation_user_container_config x.annotations))
    ok (config, opts)
