-- ===== src/Entities.antt =====
-- packages/core/src/entities/types.ts
mod Types
pub mod Primitives
pub mod Schemas
pub mod Duplicates
pub mod Valid
pub mod Texts
pub mod Parsed
pub mod Ports
pub mod Alphabets
pub mod Reparse
mod Tests
pub use Types.{
  LocationConfig, AdvancedConfig, Metadata, Route, LogLevel, info, warning, error, debug, LogSource,
  nginx, system, user, ServerStatus, running, stopped, restarting,
}
