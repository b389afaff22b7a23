-- ===== src/Examples.antt =====
-- Concrete inputs, and each theorem that has hypotheses or parameters at one of them.
mod Samples
mod KeyChain
mod Desktop
mod Web
mod Pages
mod Lifecycle
mod Modals
mod CoreStorage
mod Integrations
mod Storage
mod Secrets
mod Entities
mod Ports
mod Remote
mod Forms
mod Logs
mod Routes
mod Ssh
