-- ===== src/Secrets/Purged.antt =====
-- What `sanitizeForJson` removes and what it keeps.
use nginx_admin.Common.{
  ◌≡◌, refl, ap, ap₂, Bool, true, false, not, ◌&&◌, arith, keep, Bool-cases, inl, inr, Text, ◌∙◌,
  ===_iff, or-eq-false_iff, not-eq-true, and-eq-true_iff,
}
use nginx_admin.Secrets.Patterns.{
  is_sensitive_field_name, redact_potential_secrets, contains_secret_like_value,
}
use nginx_admin.Secrets.Values.{
  Value, undefined, null, bool, num, str, date, arr, obj, Items, nil, cons, Fields, end, field,
  keys, through_json, items_through_json, fields_through_json, is_undefined, or_null,
}
use nginx_admin.Secrets.Sanitize.{
  sanitize_for_json, sanitize_items, sanitize_fields, stringify_without_secrets,
  has_sensitive_field_name, items_have_sensitive_field_name, fields_have_sensitive_field_name,
  contains_sensitive_field_name,
}

mutual
  unfolding sanitize_for_json has_sensitive_field_name

  purged : (v : Value) → has_sensitive_field_name (sanitize_for_json v) ≡ false
  purged undefined = refl
  purged null = refl
  purged (bool b) = refl
  purged (num n) = refl
  purged (str s) = refl
  purged (date t) = refl
  purged (arr xs) = purged_items xs
  purged (obj fs) = purged_fields fs

  purged_items : (xs : Items) → items_have_sensitive_field_name (sanitize_items xs) ≡ false
  purged_items nil = refl
  purged_items (cons x xs) = ground (arith, purged x, purged_items xs)

  purged_fields : (fs : Fields) → fields_have_sensitive_field_name (sanitize_fields fs) ≡ false
  purged_fields end = refl
  purged_fields (field k v fs) = ground (arith, purged v, purged_fields fs)

has-or_null : (v : Value) → has_sensitive_field_name (or_null v) ≡ has_sensitive_field_name v
unfolding has_sensitive_field_name
has-or_null undefined = refl
has-or_null null = refl
has-or_null _ = refl

field_none :
    (k : Text) (v : Value) (fs : Fields)
    → is_sensitive_field_name k ≡ false
    → has_sensitive_field_name (through_json v) ≡ false
    → fields_have_sensitive_field_name (fields_through_json fs) ≡ false
    → fields_have_sensitive_field_name (fields_through_json (field k v fs)) ≡ false
unfolding through_json has_sensitive_field_name
field_none k v fs plain e es = elim (Bool-cases (is_undefined v)) [
  | inl gone ↦ rw gone es
  | inr kept ↦ rw (kept, plain, e) es
]

mutual
  unfolding through_json has_sensitive_field_name

  through-none :
      (v : Value)
      → has_sensitive_field_name v ≡ false
      → has_sensitive_field_name (through_json v) ≡ false
  through-none undefined h = refl
  through-none null h = refl
  through-none (bool b) h = refl
  through-none (num n) h = refl
  through-none (str s) h = refl
  through-none (date t) h = refl
  through-none (arr xs) h = through-none_items xs h
  through-none (obj fs) h = through-none_fields fs h

  through-none_items :
      (xs : Items)
      → items_have_sensitive_field_name xs ≡ false
      → items_have_sensitive_field_name (items_through_json xs) ≡ false
  through-none_items nil h = refl
  through-none_items (cons x xs) h =
      let (here, later) = (or-eq-false_iff _ _).0 h in
      (or-eq-false_iff _ _).1
        (has-or_null (through_json x) ∙ through-none x here, through-none_items xs later)

  through-none_fields :
      (fs : Fields)
      → fields_have_sensitive_field_name fs ≡ false
      → fields_have_sensitive_field_name (fields_through_json fs) ≡ false
  through-none_fields end h = refl
  through-none_fields (field k v fs) h =
      let (here, later) = (or-eq-false_iff _ _).0 h in
      let (plain, inner) = (or-eq-false_iff _ _).0 here in
      field_none k v fs plain (through-none v inner) (through-none_fields fs later)

-- The JSON text that `stringifyWithoutSecrets` writes for a value holds no property with a
-- sensitive name, at any depth: `containsSensitiveFieldName` answers `false` on it.
pub stringify-contains_none :
    (v : Value) → contains_sensitive_field_name (stringify_without_secrets v) ≡ false
unfolding contains_sensitive_field_name stringify_without_secrets
stringify-contains_none v = through-none (sanitize_for_json v) (purged v)

-- `sanitizeForJson` keeps exactly the properties of an object whose names are not sensitive, in
-- their order.
pub keys-sanitize :
    (fs : Fields)
    → keys (sanitize_fields fs) ≡ keep (λ k. not (is_sensitive_field_name k)) (keys fs)
unfolding sanitize_for_json
keys-sanitize end = refl
keys-sanitize (field k v fs) = ground (arith, keys-sanitize fs)

-- No property has a sensitive name, and redaction leaves every text as it is.
unfoldable mutual
  is_clean : Value → Bool
  is_clean (str s) = not (contains_secret_like_value s)
  is_clean (arr xs) = items_are_clean xs
  is_clean (obj fs) = fields_are_clean fs
  is_clean _ = true

  pub items_are_clean : Items → Bool
  items_are_clean nil = true
  items_are_clean (cons x xs) = is_clean x && items_are_clean xs

  pub fields_are_clean : Fields → Bool
  fields_are_clean end = true
  fields_are_clean (field k v fs) =
      (not (is_sensitive_field_name k) && is_clean v) && fields_are_clean fs

clean_text : (s : Text) → not (contains_secret_like_value s) ≡ true → redact_potential_secrets s ≡ s
unfolding contains_secret_like_value
clean_text s h = ground (arith, ===_iff (redact_potential_secrets s) s)

field_clean :
    (k : Text) (v : Value) (fs : Fields)
    → not (is_sensitive_field_name k) ≡ true
    → sanitize_for_json v ≡ v
    → sanitize_fields fs ≡ fs
    → sanitize_fields (field k v fs) ≡ field k v fs
unfolding sanitize_for_json
field_clean k v fs plain e es = rw (not-eq-true _ plain, e, es)

mutual
  unfolding is_clean sanitize_for_json

  clean : (v : Value) → is_clean v ≡ true → sanitize_for_json v ≡ v
  clean undefined h = refl
  clean null h = refl
  clean (bool b) h = refl
  clean (num n) h = refl
  clean (str s) h = ap str (clean_text s h)
  clean (date t) h = refl
  clean (arr xs) h = ap arr (clean_items xs h)
  clean (obj fs) h = ap obj (clean_fields fs h)

  clean_items : (xs : Items) → items_are_clean xs ≡ true → sanitize_items xs ≡ xs
  clean_items nil h = refl
  clean_items (cons x xs) h =
      let (here, later) = (and-eq-true_iff _ _).0 h in
      ap₂ cons (clean x here) (clean_items xs later)

  clean_fields : (fs : Fields) → fields_are_clean fs ≡ true → sanitize_fields fs ≡ fs
  clean_fields end h = refl
  clean_fields (field k v fs) h =
      let (here, later) = (and-eq-true_iff _ _).0 h in
      let (plain, inner) = (and-eq-true_iff _ _).0 here in
      field_clean k v fs plain (clean v inner) (clean_fields fs later)

-- A value with no sensitive property name, all of whose texts are left alone by redaction, is
-- returned unchanged.
sanitize-is_clean : (v : Value) → is_clean v ≡ true → sanitize_for_json v ≡ v
sanitize-is_clean v h = clean v h
