-- ===== src/Ssh.antt =====
-- The SSH transport of the desktop application, apps/desktop/src/main/ssh.
pub mod Retry
pub mod Channel
pub mod Commands
pub mod Manager
