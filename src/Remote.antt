-- ===== src/Remote.antt =====
-- The daemon's service over gRPC: the interface client.Client (pkg/client/client.go), the service
-- (pkg/remote/server) and the client of it (pkg/client/remote.go).
pub mod Interface
pub mod Messages
pub mod Server
pub mod Gate
pub mod Calls
pub mod Spec
