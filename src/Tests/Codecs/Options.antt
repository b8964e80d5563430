-- ===== src/Tests/Codecs/Options.antt =====
-- Encodings of container options.
use k3c.Prelude.{refl}
use k3c.Api.{SharedSecurityOptions, ContainerOptions}
use k3c.Tests.Serial.{Serial, serial_nat, serial_via, serial_list, serial_option}
use k3c.Tests.Codecs.Scalars.{◌&◌, text, texts, map_of_text, bool, int}
use k3c.Tests.Codecs.Pods.{namespace_mode, selinux_option}
use k3c.Tests.Codecs.Containers.{key_value, mount, resources}

abbrev pub shared_security_options : Serial SharedSecurityOptions
shared_security_options =
    serial_via
      (λ a. (
        a.privileged,
        (
          a.selinux_options,
          (
            a.net_mode,
            (
              a.pid_mode,
              (a.ipc_mode, (a.user, (a.group, (a.groups, (a.readonly_root, a.seccomp_profile))))),
            ),
          ),
        ),
      ))
      (λ p. record {
        privileged = p.0;
        selinux_options = p.1.0;
        net_mode = p.1.1.0;
        pid_mode = p.1.1.1.0;
        ipc_mode = p.1.1.1.1.0;
        user = p.1.1.1.1.1.0;
        group = p.1.1.1.1.1.1.0;
        groups = p.1.1.1.1.1.1.1.0;
        readonly_root = p.1.1.1.1.1.1.1.1.0;
        seccomp_profile = p.1.1.1.1.1.1.1.1.1;
      })
      (λ a. refl)
      (bool
        & (serial_option selinux_option)
        & namespace_mode
        & namespace_mode
        & namespace_mode
        & text
        & text
        & texts
        & bool
        & text)

abbrev pub container_options : Serial ContainerOptions
container_options =
    serial_via
      (λ a. (
        a.labels,
        (
          a.name,
          (
            a.attempt,
            (
              a.command,
              (
                a.args,
                (
                  a.working_dir,
                  (
                    a.envs,
                    (
                      a.mounts,
                      (
                        a.devices,
                        (
                          a.stdin,
                          (
                            a.stdin_once,
                            (
                              a.tty,
                              (
                                a.millis_cpu,
                                (
                                  a.linux_resources,
                                  (
                                    a.add_capabilities,
                                    (
                                      a.drop_capabilities,
                                      (
                                        a.apparmor_profile,
                                        (
                                          a.no_new_privs,
                                          (a.masked_paths, (a.readonly_paths, a.security_context)),
                                        ),
                                      ),
                                    ),
                                  ),
                                ),
                              ),
                            ),
                          ),
                        ),
                      ),
                    ),
                  ),
                ),
              ),
            ),
          ),
        ),
      ))
      (λ p. record {
        labels = p.0;
        name = p.1.0;
        attempt = p.1.1.0;
        command = p.1.1.1.0;
        args = p.1.1.1.1.0;
        working_dir = p.1.1.1.1.1.0;
        envs = p.1.1.1.1.1.1.0;
        mounts = p.1.1.1.1.1.1.1.0;
        devices = p.1.1.1.1.1.1.1.1.0;
        stdin = p.1.1.1.1.1.1.1.1.1.0;
        stdin_once = p.1.1.1.1.1.1.1.1.1.1.0;
        tty = p.1.1.1.1.1.1.1.1.1.1.1.0;
        millis_cpu = p.1.1.1.1.1.1.1.1.1.1.1.1.0;
        linux_resources = p.1.1.1.1.1.1.1.1.1.1.1.1.1.0;
        add_capabilities = p.1.1.1.1.1.1.1.1.1.1.1.1.1.1.0;
        drop_capabilities = p.1.1.1.1.1.1.1.1.1.1.1.1.1.1.1.0;
        apparmor_profile = p.1.1.1.1.1.1.1.1.1.1.1.1.1.1.1.1.0;
        no_new_privs = p.1.1.1.1.1.1.1.1.1.1.1.1.1.1.1.1.1.0;
        masked_paths = p.1.1.1.1.1.1.1.1.1.1.1.1.1.1.1.1.1.1.0;
        readonly_paths = p.1.1.1.1.1.1.1.1.1.1.1.1.1.1.1.1.1.1.1.0;
        security_context = p.1.1.1.1.1.1.1.1.1.1.1.1.1.1.1.1.1.1.1.1;
      })
      (λ a. refl)
      (map_of_text
        & text
        & serial_nat
        & texts
        & texts
        & text
        & (serial_list key_value)
        & (serial_list mount)
        & texts
        & bool
        & bool
        & bool
        & int
        & (serial_option resources)
        & texts
        & texts
        & texts
        & bool
        & texts
        & texts
        & (serial_option shared_security_options))
