-- ===== src/Logs.antt =====
-- The logs: filters, entries and their store.
pub mod Entries
pub mod Filter
pub mod Store
pub mod Redacted
