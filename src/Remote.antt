-- ===== src/Remote.antt =====
-- The control plane of remote routes: its types, executors, process and projection.
pub mod Types
pub mod Drafts
pub mod Mock
pub mod Local
pub mod Values
pub mod Fixed
pub mod Gateway
pub mod Projection
pub mod Process
pub mod Composition
