-- ===== src/Daemon.antt =====
-- pkg/daemon: the daemon over the container runtime.
pub mod Runtime
pub mod Config
pub mod Gc
pub mod Ids
pub mod Convert
pub mod Pods
pub mod Containers
pub mod Status
pub mod Bootstrap
pub mod Create
pub mod Images
pub mod Pushes
pub mod Events
pub mod Service
