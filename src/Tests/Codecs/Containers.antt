-- ===== src/Tests/Codecs/Containers.antt =====
-- Encodings of container configurations.
use k3c.Prelude.{ℕ, zero, suc, ◌≡◌, refl}
use k3c.Cri.{
  Propagation, private, host_to_container, bidirectional, Mount, KeyValue, ContainerMetadata,
  Resources, ContainerSecurity, ContainerConfig,
}
use k3c.Tests.Serial.{Serial, serial_nat, serial_via, serial_list, serial_option}
use k3c.Tests.Codecs.Scalars.{◌&◌, text, texts, map_of_text, bool, int}
use k3c.Tests.Codecs.Pods.{namespace_option, selinux_option}

abbrev pub container_metadata : Serial ContainerMetadata
container_metadata =
    serial_via (λ a. (a.name, a.attempt)) (λ p. record { name = p.0; attempt = p.1 }) (λ a. refl)
      (text & serial_nat)

abbrev pub key_value : Serial KeyValue
key_value =
    serial_via (λ a. (a.key, a.value)) (λ p. record { key = p.0; value = p.1 }) (λ a. refl)
      (text & text)

abbrev pub propagation : Serial Propagation
propagation = serial_via to from law serial_nat
  where
    to : Propagation → ℕ
    to private = 0
    to host_to_container = 1
    to bidirectional = 2

    from : ℕ → Propagation
    from zero = private
    from (suc zero) = host_to_container
    from (suc (suc _)) = bidirectional

    law : (a : Propagation) → from (to a) ≡ a
    law private = refl
    law host_to_container = refl
    law bidirectional = refl

abbrev pub mount : Serial Mount
mount =
    serial_via (λ a. (a.container_path, (a.host_path, (a.readonly, a.propagation))))
      (λ p. record {
        container_path = p.0;
        host_path = p.1.0;
        readonly = p.1.1.0;
        propagation = p.1.1.1;
      })
      (λ a. refl) (text & text & bool & propagation)

abbrev pub resources : Serial Resources
resources =
    serial_via
      (λ a. (
        a.cpu_period,
        (
          a.cpu_quota,
          (a.cpu_shares, (a.memory_limit, (a.oom_score_adj, (a.cpuset_cpus, a.cpuset_mems)))),
        ),
      ))
      (λ p. record {
        cpu_period = p.0;
        cpu_quota = p.1.0;
        cpu_shares = p.1.1.0;
        memory_limit = p.1.1.1.0;
        oom_score_adj = p.1.1.1.1.0;
        cpuset_cpus = p.1.1.1.1.1.0;
        cpuset_mems = p.1.1.1.1.1.1;
      })
      (λ a. refl) (int & int & int & int & int & text & text)

abbrev pub container_security : Serial ContainerSecurity
container_security =
    serial_via
      (λ a. (
        a.add_capabilities,
        (
          a.drop_capabilities,
          (
            a.privileged,
            (
              a.namespaces,
              (
                a.selinux,
                (
                  a.run_as_user,
                  (
                    a.run_as_group,
                    (
                      a.run_as_username,
                      (
                        a.readonly_rootfs,
                        (
                          a.supplemental_groups,
                          (
                            a.apparmor_profile,
                            (
                              a.seccomp_profile,
                              (a.no_new_privs, (a.masked_paths, a.readonly_paths)),
                            ),
                          ),
                        ),
                      ),
                    ),
                  ),
                ),
              ),
            ),
          ),
        ),
      ))
      (λ p. record {
        add_capabilities = p.0;
        drop_capabilities = p.1.0;
        privileged = p.1.1.0;
        namespaces = p.1.1.1.0;
        selinux = p.1.1.1.1.0;
        run_as_user = p.1.1.1.1.1.0;
        run_as_group = p.1.1.1.1.1.1.0;
        run_as_username = p.1.1.1.1.1.1.1.0;
        readonly_rootfs = p.1.1.1.1.1.1.1.1.0;
        supplemental_groups = p.1.1.1.1.1.1.1.1.1.0;
        apparmor_profile = p.1.1.1.1.1.1.1.1.1.1.0;
        seccomp_profile = p.1.1.1.1.1.1.1.1.1.1.1.0;
        no_new_privs = p.1.1.1.1.1.1.1.1.1.1.1.1.0;
        masked_paths = p.1.1.1.1.1.1.1.1.1.1.1.1.1.0;
        readonly_paths = p.1.1.1.1.1.1.1.1.1.1.1.1.1.1;
      })
      (λ a. refl)
      (texts
        & texts
        & bool
        & namespace_option
        & (serial_option selinux_option)
        & (serial_option int)
        & (serial_option int)
        & text
        & bool
        & (serial_list int)
        & text
        & text
        & bool
        & texts
        & texts)

abbrev pub container_config : Serial ContainerConfig
container_config =
    serial_via
      (λ a. (
        a.metadata,
        (
          a.image,
          (
            a.command,
            (
              a.args,
              (
                a.working_dir,
                (
                  a.envs,
                  (
                    a.mounts,
                    (
                      a.devices,
                      (
                        a.labels,
                        (
                          a.annotations,
                          (
                            a.log_path,
                            (a.stdin, (a.stdin_once, (a.tty, (a.resources, a.security)))),
                          ),
                        ),
                      ),
                    ),
                  ),
                ),
              ),
            ),
          ),
        ),
      ))
      (λ p. record {
        metadata = p.0;
        image = p.1.0;
        command = p.1.1.0;
        args = p.1.1.1.0;
        working_dir = p.1.1.1.1.0;
        envs = p.1.1.1.1.1.0;
        mounts = p.1.1.1.1.1.1.0;
        devices = p.1.1.1.1.1.1.1.0;
        labels = p.1.1.1.1.1.1.1.1.0;
        annotations = p.1.1.1.1.1.1.1.1.1.0;
        log_path = p.1.1.1.1.1.1.1.1.1.1.0;
        stdin = p.1.1.1.1.1.1.1.1.1.1.1.0;
        stdin_once = p.1.1.1.1.1.1.1.1.1.1.1.1.0;
        tty = p.1.1.1.1.1.1.1.1.1.1.1.1.1.0;
        resources = p.1.1.1.1.1.1.1.1.1.1.1.1.1.1.0;
        security = p.1.1.1.1.1.1.1.1.1.1.1.1.1.1.1;
      })
      (λ a. refl)
      (container_metadata
        & text
        & texts
        & texts
        & text
        & (serial_list key_value)
        & (serial_list mount)
        & texts
        & map_of_text
        & map_of_text
        & text
        & bool
        & bool
        & bool
        & (serial_option resources)
        & container_security)
