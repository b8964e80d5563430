-- ===== src/Tests.antt =====
-- Concrete inputs: a codec, a runtime and a disk that have the documented behaviour, and runs of the
-- code over them.
pub mod Serial
pub mod Codecs
pub mod World
pub mod Values
pub mod Flags
pub mod Images
pub mod Clients
pub mod Removal
pub mod Commands
pub mod Remote
pub mod Volumes
pub mod Daemon
pub mod Programs
pub mod Builds
pub mod Collector
