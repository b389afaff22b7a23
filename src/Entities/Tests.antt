-- ===== src/Entities/Tests.antt =====
-- Runs of the schemas of texts.
use nginx_admin.Common.{◌≡◌, refl, true, false, text, some}
use nginx_admin.Entities.Primitives.{
  domain_schema, unix_path_schema, url_path_schema, size_unit_schema, time_unit_schema,
  proxy_target_schema,
}

domains :
    (domain_schema (text "api.example.com") ≡ true)
    × (domain_schema (text "localhost") ≡ false)
    × (domain_schema (text "-a.com") ≡ false)
    × (domain_schema (text "a..com") ≡ false)
unfolding domain_schema
domains = (refl, refl, refl, refl)

paths :
    (unix_path_schema (text "/var/www/html") ≡ true)
    × (unix_path_schema (text "/var/") ≡ false)
    × (unix_path_schema (text "") ≡ true)
    × (url_path_schema (text "/api/") ≡ true)
    × (url_path_schema (text "api") ≡ false)
unfolding unix_path_schema url_path_schema
paths = (refl, refl, refl, refl, refl)

units : (size_unit_schema (text "10M") ≡ true) × (time_unit_schema (text "65") ≡ false)
unfolding size_unit_schema time_unit_schema
units = (refl, refl)

targets :
    (proxy_target_schema (some (text "http://localhost:3000/x")) ≡ true)
    × (proxy_target_schema (some (text "http://u:p@host")) ≡ false)
    × (proxy_target_schema (some (text "")) ≡ false)
unfolding proxy_target_schema
targets = (refl, refl, refl)
