-- ===== src/Lib.antt =====
-- k3c: a container engine over containerd and its CRI plugin. The command line (cmd) talks to a
-- daemon (pkg/daemon) over gRPC (pkg/client, pkg/remote); the daemon calls the CRI runtime and
-- keeps its own configuration in the annotations of what it creates.
--
-- Which file is about which code:
--   Ports: pkg/ports/parse.go, Parse.
--   VolumeFlags: pkg/volumes/volume.go, Parse.
--   Kicker: pkg/kicker/kicker.go. Kick, the end of the context and the watching goroutine are the
--   steps of a relation; poll_kicked is Kicked.
--   PushStatus: pkg/pushstatus/pushstatus.go and pkg/status/info.go.
--   Volume: pkg/daemon/volume/volume.go; a Manager is its base directory.
--   Daemon.Config: storePodConfig, getPodConfig, storeContainerConfig and getContainerConfig.
--   Daemon.Create: CreatePod (pkg/daemon/pod.go), CreateContainer and resolveMounts
--   (pkg/daemon/container.go).
--   Daemon.Gc: runGC (pkg/daemon/pod.go); Daemon.Gc.Loop: gc beside it.
--   Daemon.Ids: toPodUser, toID, toGroupIDs and toUserID.
--   Daemon.Status: toPodStartTime, toContainerStatus and toPhase (pkg/daemon/pod.go).
--   Daemon.Convert: toContainer, addMount, toResources and toEnv (pkg/daemon/container.go).
--   Daemon.Pods: listPods, getIPs and toPod (pkg/daemon/pod.go).
--   Daemon.Containers: GetContainer, StartContainer, StopContainer, RemoveContainer, Exec, Attach
--   and LogContainer (pkg/daemon/container.go).
--   Daemon.Images: pkg/daemon/image.go, but pushes; Daemon.Pushes: PushImage and PushProgress,
--   whose table of running pushes other goroutines share.
--   Daemon.Bootstrap: Bootstrap, getInstallPath and getServicesOpts (pkg/daemon/client.go).
--   Daemon.Events: pkg/daemon/events.go; Daemon.Service: the Daemon of pkg/daemon/client.go as an
--   implementation of client.Client, its operations on the parts of one state.
--   Remote.Interface: client.Client (pkg/client/client.go), as a record of operations over a world.
--   Remote.Server: pkg/remote/server/container_service.go; Remote.Gate: wrapper.go beside it;
--   Remote.Calls: pkg/client/remote.go; Remote.Messages: what they exchange; Remote.Spec: what a
--   client over gRPC promises, as operations of the daemon behind the gate and the link.
--   Commands.Create: cmd/create/create.go; Commands.Rmi: cmd/rmi/rmi.go; Commands.Containers: rm,
--   start, stop, run, attach, exec, logs and volume rm; Commands.Build: cmd/build;
--   Commands.Images: pull, push, tag and volume create, and pkg/validate; Commands.Lists: images,
--   ps, inspect and events, with the columns of pkg/tables. A command takes any Client.
--   Build: pkg/client/build/build.go; Build.Session: session.go beside it.
--   Table: pkg/table/writer.go and fmt.go.
--   CliBuilder: pkg/clibuilder/builder.go, over a description of a command's struct.
--   Cri, Api and Core: the messages of the CRI, of the daemon's own service and of Kubernetes, as
--   far as the code above uses them.
--   Paths: path/filepath, and Prelude: strings, maps, integers and results of Go.
--   Tests: concrete inputs, with a codec, a runtime and a disk that satisfy what is assumed.
--
-- A method becomes a function by clauses with the same branches. One that calls the runtime takes
-- and returns the world, an abstract type of the runtime (Daemon.Runtime); one that makes
-- directories does so over a Disk (Volume). A Go error is `err`, and a run-time panic is `panic`.
-- Loops are recursion on the list they go over, so no fuel is needed. Strings are byte lists.
--
-- Parameters, and what is assumed of them where a theorem needs it: the CRI runtime (KeepsPods
-- and KeepsContainer: which calls remove a sandbox or a container), the JSON codec (IsFaithful:
-- what is written is read back), the disk (IsLawful), the image store (IsStore), the order in
-- which Go goes over a map (IsOrder), MD5, UUIDs, kv.Split and the JSON of an info map. What
-- happens while the collector sleeps is an arbitrary function.
--
-- gRPC is a Link: what becomes of an error, and which Sends of a stream fail (StaysBroken: none
-- succeeds after one that failed; CarriesStatus: the errors it gives are its own). A request that does
-- not reach the server is not modelled. Templates, encoders, buildkit, the terminal and the parsers of
-- command line values are parameters of what uses them.
--
-- Not modelled: connections, the registration of plugins and the configuration files (pkg/daemon,
-- pkg/endpointconn, cmd/daemon), which wire third-party libraries together; the table of commands
-- (pkg/cli) and their parsing, which is urfave/cli's; buildkit's service (pkg/daemon/services),
-- which hands its settings to third-party code; terminal streams (pkg/stream) and the display of
-- progress (pkg/progress). Label and variable files (pkg/kvfile) are a copy of docker/cli, so
-- their readers are a parameter. What is drawn from a channel of several receivers is modelled
-- for one. Log messages are left out.
pub mod Prelude
pub mod Paths
pub mod Cri
pub mod Api
pub mod Core
pub mod Ports
pub mod VolumeFlags
pub mod Kicker
pub mod PushStatus
pub mod Remote
pub mod Volume
pub mod Daemon
pub mod CliBuilder
pub mod Table
pub mod Build
pub mod Commands
pub mod Tests
