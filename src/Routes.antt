-- ===== src/Routes.antt =====
-- Routes of the core library: their repositories and the use cases on them.
pub mod Repository
pub mod Adapter
pub mod UseCases
pub mod Accepted
pub mod Updated
pub mod Outcomes
pub mod Toggle
pub mod History
pub mod Sanitised
pub mod Slice
pub mod Operations
pub mod Hooks
