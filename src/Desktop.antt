-- ===== src/Desktop.antt =====
-- The main process of the desktop application, apps/desktop/src/main: the secrets of a host and
-- their repository, the migration of secrets out of an environment file.
pub mod Faults
pub mod HostSecrets
pub mod Keytar
pub mod Files
pub mod EnvFile
pub mod Migration
pub mod Startup
pub mod Lifecycle
