-- ===== src/Secrets/Sanitize.antt =====
-- packages/core/src/security/secrets.ts: `sanitizeForJson` and the search for sensitive names.
use nginx_admin.Common.{Bool, false, ◌||◌, if◌then◌else◌}
use nginx_admin.Secrets.Patterns.{is_sensitive_field_name, redact_potential_secrets}
use nginx_admin.Secrets.Values.{
  Value, undefined, null, bool, num, str, date, arr, obj, Items, nil, cons, Fields, end, field,
  through_json,
}

unfoldable mutual
  pub sanitize_for_json : Value → Value
  sanitize_for_json undefined = undefined
  sanitize_for_json null = null
  sanitize_for_json (bool b) = bool b
  sanitize_for_json (num n) = num n
  sanitize_for_json (str s) = str (redact_potential_secrets s)
  sanitize_for_json (date t) = date t
  sanitize_for_json (arr xs) = arr (sanitize_items xs)
  sanitize_for_json (obj fs) = obj (sanitize_fields fs)

  pub sanitize_items : Items → Items
  sanitize_items nil = nil
  sanitize_items (cons x xs) = cons (sanitize_for_json x) (sanitize_items xs)

  pub sanitize_fields : Fields → Fields
  sanitize_fields end = end
  sanitize_fields (field key item fs) =
      let rest = sanitize_fields fs in
      if is_sensitive_field_name key then rest else field key (sanitize_for_json item) rest

-- The JSON text, by the value that it denotes.
unfoldable pub stringify_without_secrets : Value → Value
unfolding through_json sanitize_for_json
stringify_without_secrets v = through_json (sanitize_for_json v)

-- A date has no own enumerable properties.
unfoldable mutual
  pub has_sensitive_field_name : Value → Bool
  has_sensitive_field_name (arr xs) = items_have_sensitive_field_name xs
  has_sensitive_field_name (obj fs) = fields_have_sensitive_field_name fs
  has_sensitive_field_name _ = false

  pub items_have_sensitive_field_name : Items → Bool
  items_have_sensitive_field_name nil = false
  items_have_sensitive_field_name (cons x xs) =
      has_sensitive_field_name x || items_have_sensitive_field_name xs

  pub fields_have_sensitive_field_name : Fields → Bool
  fields_have_sensitive_field_name end = false
  fields_have_sensitive_field_name (field key item fs) =
      (is_sensitive_field_name key || has_sensitive_field_name item)
      || fields_have_sensitive_field_name fs

-- The argument is the JSON text, by the value that it denotes.
unfoldable pub contains_sensitive_field_name : Value → Bool
unfolding has_sensitive_field_name
contains_sensitive_field_name serialized = has_sensitive_field_name serialized
