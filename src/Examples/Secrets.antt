-- ===== src/Examples/Secrets.antt =====
-- Examples on sanitising.
use nginx_admin.Common.{◌≡◌, false, text}
use nginx_admin.Secrets.{
  str, arr, obj, nil, cons, Fields, end, field, stringify_without_secrets,
  contains_sensitive_field_name,
}
use nginx_admin.Secrets.Purged.{stringify-contains_none}

abbrev login : Fields
login = field (text "id") (str (text "route-1")) (
    field (text "password") (str (text "pw"))
      (field (text "nested") (obj (field (text "accessToken") (str (text "t")) end)) end))

stringify-contains_none_example :
    contains_sensitive_field_name (stringify_without_secrets (arr (cons (obj login) nil))) ≡ false
stringify-contains_none_example = stringify-contains_none (arr (cons (obj login) nil))
