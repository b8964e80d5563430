-- ===== src/Tests/Codecs.antt =====
-- A codec of the three messages that reads back all that it writes.
pub mod Scalars
pub mod Pods
pub mod Containers
pub mod Options
use k3c.Prelude.{ℕ, zero, suc, ◌≡◌, refl, subst, Bool, true, false, Option, none, some, List, []}
use k3c.Prelude.Text.{Text}
use k3c.Prelude.Maps.{Map}
use k3c.Prelude.Int.{ℤ, pos, negsuc}
use k3c.Prelude.Results.{other}
use k3c.Cri.{
  Protocol, tcp, udp, PortMapping, Propagation, private, host_to_container, bidirectional, Mount,
  NamespaceMode, pod, container, node, NamespaceOption, SelinuxOption, DnsConfig, KeyValue,
  PodMetadata, PodSecurity, PodConfig, ContainerMetadata, Resources, ContainerSecurity,
  ContainerConfig,
}
use k3c.Api.{SharedSecurityOptions, ContainerOptions}
use k3c.Daemon.Runtime.{Codec, IsFaithful, Reply, done, failed}
use k3c.Tests.Serial.{Serial, serial_nat, serial_via, serial_pair, serial_list, serial_option}
use k3c.Tests.Codecs.Pods.{pod_config}
use k3c.Tests.Codecs.Containers.{container_config}
use k3c.Tests.Codecs.Options.{container_options}

abbrev reply : {A : Type 0} → Option (A × Text) → Reply A
reply none = failed (other [])
reply (some (a, _)) = done a

abbrev pub test_codec : Codec
test_codec = record {
  marshal_pod = λ x. done (pod_config.enc x []);
  unmarshal_pod = λ t. reply (pod_config.dec t);
  marshal_container = λ x. done (container_config.enc x []);
  unmarshal_container = λ t. reply (container_config.dec t);
  marshal_options = λ x. done (container_options.enc x []);
  unmarshal_options = λ t. reply (container_options.dec t);
}

done-injective : {A : Type 0} {a b : A} → done a ≡ done b → a ≡ b
done-injective e = cc

read_back :
    {A : Type 0} (s : Serial A) (x : A) (t : Text)
    → done (s.enc x []) ≡ done t
    → reply (s.dec t) ≡ done x
read_back s x t e = subst (λ u. reply (s.dec u) ≡ done x) (done-injective e) (rw s.dec-enc refl)

pub test_codec-IsFaithful : IsFaithful test_codec
test_codec-IsFaithful = record {
  pod_config = read_back pod_config;
  container_config = read_back container_config;
  options = read_back container_options;
}
