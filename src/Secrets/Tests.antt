-- ===== src/Secrets/Tests.antt =====
-- Runs of redaction, those of packages/infra/src/repositories/__tests__/safeJson.spec.ts among
-- them.
use nginx_admin.Common.{◌≡◌, refl, true, false, text}
use nginx_admin.Secrets.Patterns.{redact_potential_secrets, is_sensitive_field_name}

url :
    redact_potential_secrets (text "https://user:pw@example.com")
    ≡ text "https://[redacted]@example.com"
unfolding redact_potential_secrets
url = refl

header :
    redact_potential_secrets (text "Authorization: Bearer abc.def")
    ≡ text "Authorization=[redacted]"
unfolding redact_potential_secrets
header = refl

cookie_line : redact_potential_secrets (text "Cookie: sid=123") ≡ text "Cookie=[redacted]"
unfolding redact_potential_secrets
cookie_line = refl

bearer : redact_potential_secrets (text "use bearer abc") ≡ text "use 4=[redacted]"
unfolding redact_potential_secrets
bearer = refl

names :
    (is_sensitive_field_name (text "accessToken") ≡ true)
    × (is_sensitive_field_name (text "ssl_certificate_key") ≡ false)
    × (is_sensitive_field_name (text "author") ≡ true)
    × (is_sensitive_field_name (text "createdBy") ≡ false)
unfolding is_sensitive_field_name
names = (refl, refl, refl, refl)
