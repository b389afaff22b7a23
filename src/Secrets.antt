-- ===== src/Secrets.antt =====
-- packages/core/src/security/secrets.ts
mod Patterns
mod Values
mod Sanitize
pub mod Purged
mod Tests
unfoldable pub use Patterns.{
  is_sensitive_field_name, redact_potential_secrets, contains_secret_like_value,
  contains_sensitive_directive, secret_replacement,
}
pub use Patterns.{non_secret_path_keys}
pub use Values.{
  Value, undefined, null, bool, num, str, date, arr, obj, Items, nil, cons, Fields, end, field,
  keys,
}
unfoldable pub use Values.{through_json, items_through_json, fields_through_json}
unfoldable pub use Sanitize.{
  sanitize_for_json, sanitize_items, sanitize_fields, stringify_without_secrets,
  has_sensitive_field_name, contains_sensitive_field_name,
}
