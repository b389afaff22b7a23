-- ===== src/Forms.antt =====
-- The form for a route: its validation and its store.
pub mod Drafts
pub mod Objects
pub mod Values
pub mod Validation
pub mod Fields
pub mod Store
