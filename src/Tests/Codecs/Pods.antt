-- ===== src/Tests/Codecs/Pods.antt =====
-- Encodings of pod configurations.
use k3c.Prelude.{ℕ, zero, suc, ◌≡◌, refl}
use k3c.Cri.{
  Protocol, tcp, udp, PortMapping, NamespaceMode, pod, container, node, NamespaceOption,
  SelinuxOption, DnsConfig, PodMetadata, PodSecurity, PodConfig,
}
use k3c.Tests.Serial.{Serial, serial_nat, serial_via, serial_list, serial_option}
use k3c.Tests.Codecs.Scalars.{◌&◌, text, texts, map_of_text, bool, int}

abbrev pub pod_metadata : Serial PodMetadata
pod_metadata =
    serial_via (λ a. (a.name, (a.uid, a.namespace)))
      (λ p. record { name = p.0; uid = p.1.0; namespace = p.1.1 }) (λ a. refl) (text & text & text)

abbrev pub dns_config : Serial DnsConfig
dns_config =
    serial_via (λ a. (a.servers, (a.searches, a.options)))
      (λ p. record { servers = p.0; searches = p.1.0; options = p.1.1 }) (λ a. refl)
      (texts & texts & texts)

abbrev pub protocol : Serial Protocol
protocol = serial_via to from law serial_nat
  where
    to : Protocol → ℕ
    to tcp = 0
    to udp = 1

    from : ℕ → Protocol
    from zero = tcp
    from (suc _) = udp

    law : (a : Protocol) → from (to a) ≡ a
    law tcp = refl
    law udp = refl

abbrev pub port_mapping : Serial PortMapping
port_mapping =
    serial_via (λ a. (a.protocol, (a.container_port, (a.host_port, a.host_ip))))
      (λ p. record {
        protocol = p.0;
        container_port = p.1.0;
        host_port = p.1.1.0;
        host_ip = p.1.1.1;
      })
      (λ a. refl) (protocol & int & int & text)

abbrev pub namespace_mode : Serial NamespaceMode
namespace_mode = serial_via to from law serial_nat
  where
    to : NamespaceMode → ℕ
    to pod = 0
    to container = 1
    to node = 2

    from : ℕ → NamespaceMode
    from zero = pod
    from (suc zero) = container
    from (suc (suc _)) = node

    law : (a : NamespaceMode) → from (to a) ≡ a
    law pod = refl
    law container = refl
    law node = refl

abbrev pub namespace_option : Serial NamespaceOption
namespace_option =
    serial_via (λ a. (a.network, (a.pid, a.ipc)))
      (λ p. record { network = p.0; pid = p.1.0; ipc = p.1.1 }) (λ a. refl)
      (namespace_mode & namespace_mode & namespace_mode)

abbrev pub selinux_option : Serial SelinuxOption
selinux_option =
    serial_via (λ a. (a.user, (a.role, (a.kind, a.level))))
      (λ p. record { user = p.0; role = p.1.0; kind = p.1.1.0; level = p.1.1.1 }) (λ a. refl)
      (text & text & text & text)

abbrev pub pod_security : Serial PodSecurity
pod_security =
    serial_via
      (λ a. (
        a.namespaces,
        (
          a.selinux,
          (
            a.run_as_user,
            (
              a.run_as_group,
              (a.readonly_rootfs, (a.supplemental_groups, (a.privileged, a.seccomp_profile))),
            ),
          ),
        ),
      ))
      (λ p. record {
        namespaces = p.0;
        selinux = p.1.0;
        run_as_user = p.1.1.0;
        run_as_group = p.1.1.1.0;
        readonly_rootfs = p.1.1.1.1.0;
        supplemental_groups = p.1.1.1.1.1.0;
        privileged = p.1.1.1.1.1.1.0;
        seccomp_profile = p.1.1.1.1.1.1.1;
      })
      (λ a. refl)
      (namespace_option
        & (serial_option selinux_option)
        & (serial_option int)
        & (serial_option int)
        & bool
        & (serial_list int)
        & bool
        & text)

abbrev pub pod_config : Serial PodConfig
pod_config =
    serial_via
      (λ a. (
        a.metadata,
        (
          a.hostname,
          (
            a.log_directory,
            (
              a.dns_config,
              (
                a.port_mappings,
                (a.labels, (a.annotations, (a.cgroup_parent, (a.security, a.sysctls)))),
              ),
            ),
          ),
        ),
      ))
      (λ p. record {
        metadata = p.0;
        hostname = p.1.0;
        log_directory = p.1.1.0;
        dns_config = p.1.1.1.0;
        port_mappings = p.1.1.1.1.0;
        labels = p.1.1.1.1.1.0;
        annotations = p.1.1.1.1.1.1.0;
        cgroup_parent = p.1.1.1.1.1.1.1.0;
        security = p.1.1.1.1.1.1.1.1.0;
        sysctls = p.1.1.1.1.1.1.1.1.1;
      })
      (λ a. refl)
      (pod_metadata
        & text
        & text
        & (serial_option dns_config)
        & (serial_list port_mapping)
        & map_of_text
        & map_of_text
        & text
        & pod_security
        & map_of_text)
