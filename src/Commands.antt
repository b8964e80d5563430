-- ===== src/Commands.antt =====
-- The command line, of cmd.
pub mod Create
pub mod Rmi
pub mod Containers
pub mod Images
pub mod Build
pub mod Lists
