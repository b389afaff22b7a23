-- ===== src/Secrets/Patterns.antt =====
-- packages/core/src/security/secrets.ts: the patterns for secrets, and redaction.
use nginx_admin.Common.{
  ℕ, Bool, true, not, ◌&&◌, ◌||◌, Option, none, some, List, [], ◌∷◌, ◌++◌, Text, text, truthy, ◌==◌,
  ◌===◌, if◌then◌else◌, any, is_space, includes, lower, decimal,
}
use nginx_admin.Regex.{
  Regex, char, seq, alt, star, lazy, group, boundary, one_of, within, literal, literal_i, class_i,
  optional, plus, word, test, replace,
}

-- `[-_]?`
dash : Regex
dash = optional (class_i (one_of (text "-_")))

-- `private(?:key)?`
private_key : Regex
private_key = seq (literal_i (text "private")) (optional (literal_i (text "key")))

-- `access[-_]?token|refresh[-_]?token|api[-_]?key`
compound : Regex
unfolding dash
compound = alt (seq (literal_i (text "access")) (seq dash (literal_i (text "token")))) (
    alt (seq (literal_i (text "refresh")) (seq dash (literal_i (text "token"))))
      (seq (literal_i (text "api")) (seq dash (literal_i (text "key")))))

sensitive_key_pattern : Regex
unfolding compound private_key word
sensitive_key_pattern = alt compound (
    alt
      (word (
        text "authorization"
        ∷ text "cookie"
        ∷ text "token"
        ∷ text "secret"
        ∷ text "password"
        ∷ text "passphrase"
        ∷ []))
      (alt private_key (
        word (text "auth" ∷ text "credential" ∷ text "jwt" ∷ text "session" ∷ text "bearer" ∷ []))))

abbrev pub non_secret_path_keys : List Text
non_secret_path_keys =
    text "ssl_certificate_key" ∷ text "certificateKey" ∷ text "certificate_key" ∷ []

unfoldable pub is_sensitive_field_name : Text → Bool
unfolding sensitive_key_pattern test ◌===◌
is_sensitive_field_name key =
    test sensitive_key_pattern key && not (any (λ k. k === key) non_secret_path_keys)

-- `\s*[:=]\s*`
separator : Regex
unfolding is_space
separator = seq (star (char is_space)) (seq (char (one_of (text ":="))) (star (char is_space)))

abbrev other_than : (ℕ → Bool) → ℕ → Bool
other_than p c = not (p c)

-- `"[^"]*"|'[^']*'`
quoted : Regex
quoted =
    alt
      (seq (literal (text "\""))
        (seq (star (char (other_than (one_of (text "\""))))) (literal (text "\""))))
      (seq (literal (text "'"))
        (seq (star (char (other_than (one_of (text "'"))))) (literal (text "'"))))

-- `"[^"]*"|'[^']*'|[^\s,;]+`
bare_value : Regex
unfolding quoted is_space plus
bare_value = alt quoted (plus (char (λ c. not (is_space c || one_of (text ",;") c))))

authorization_pattern : Regex
unfolding separator bare_value plus is_space
authorization_pattern = seq boundary (
    seq (group (literal_i (text "authorization"))) (
      seq separator
        (seq (optional (seq (literal_i (text "bearer")) (plus (char is_space)))) bare_value)))

cookie_pattern : Regex
unfolding separator quoted plus
cookie_pattern = seq boundary (
    seq (group (alt (literal_i (text "cookie")) (literal_i (text "set-cookie"))))
      (seq separator (alt quoted (plus (char (other_than (one_of (13 ∷ 10 ∷ []))))))))

pair_pattern : Regex
unfolding compound word private_key separator bare_value
pair_pattern = seq boundary (
    seq
      (group (
        alt compound (
          alt (word (text "token" ∷ text "secret" ∷ text "password" ∷ text "passphrase" ∷ [])) (
            alt private_key
              (word (text "auth" ∷ text "credential" ∷ text "jwt" ∷ text "session" ∷ []))))))
      (seq boundary (seq separator bare_value)))

abbrev alphanumeric : ℕ → Bool
alphanumeric c = within b'a' b'z' c || within b'0' b'9' c

bearer_pattern : Regex
unfolding plus is_space
bearer_pattern = seq boundary (
    seq (literal_i (text "bearer")) (
      seq (plus (char is_space))
        (plus (class_i (λ c. alphanumeric c || one_of (text "._~+/=-") c)))))

-- `[A-Z ]*PRIVATE KEY-----`, in the two lines of a PEM block
pem_label : Regex
pem_label =
    seq (star (char (λ c. within b'A' b'Z' c || c == 32))) (literal (text "PRIVATE KEY-----"))

pem_pattern : Regex
unfolding pem_label
pem_pattern =
    seq (literal (text "-----BEGIN "))
      (seq pem_label (seq (lazy (char (λ c. true))) (seq (literal (text "-----END ")) pem_label)))

abbrev secret_value_patterns : List Regex
secret_value_patterns =
    authorization_pattern ∷ cookie_pattern ∷ pair_pattern ∷ bearer_pattern ∷ pem_pattern ∷ []

-- `\b([a-z][a-z0-9+.-]*:\/\/)([^/?#\s@]+@)`
url_with_credentials_pattern : Regex
unfolding plus is_space
url_with_credentials_pattern = seq boundary (
    seq
      (group (
        seq (class_i (within b'a' b'z')) (
          seq (star (class_i (λ c. alphanumeric c || one_of (text "+.-") c)))
            (literal (text "://")))))
      (seq (plus (char (λ c. not (is_space c || one_of (text "/?#@") c)))) (literal (text "@"))))

-- The replacement `$1[redacted]@`.
abbrev url_replacement : ℕ → Text → Option Text → Text
url_replacement offset matched none = text "[redacted]@"
url_replacement offset matched (some scheme) = scheme ++ text "[redacted]@"

-- The callback of `replace`. A pattern with no group hands it the offset in the place of the key,
-- which is falsy only when it is 0.
unfoldable pub secret_replacement : ℕ → Text → Option Text → Text
unfolding decimal
secret_replacement offset matched none =
    if offset == 0 then text "[redacted]" else decimal offset ++ text "=[redacted]"
secret_replacement offset matched (some key) =
    if truthy key then key ++ text "=[redacted]" else text "[redacted]"

-- The loop over the patterns.
redact_by : List Regex → Text → Text
unfolding replace secret_replacement
redact_by [] next = next
redact_by (pattern ∷ patterns) next = redact_by patterns (replace pattern secret_replacement next)

unfoldable pub redact_potential_secrets : Text → Text
unfolding redact_by replace url_with_credentials_pattern authorization_pattern cookie_pattern
    pair_pattern bearer_pattern pem_pattern
redact_potential_secrets value =
    redact_by secret_value_patterns (replace url_with_credentials_pattern url_replacement value)

unfoldable pub contains_secret_like_value : Text → Bool
unfolding redact_potential_secrets ◌===◌
contains_secret_like_value value = not (redact_potential_secrets value === value)

abbrev sensitive_directives : List Text
sensitive_directives =
    text "authorization"
    ∷ text "cookie"
    ∷ text "proxy_set_header auth"
    ∷ text "password"
    ∷ text "token"
    ∷ text "secret"
    ∷ text "credential"
    ∷ text "jwt"
    ∷ text "session"
    ∷ text "bearer"
    ∷ []

unfoldable pub contains_sensitive_directive : Text → Bool
unfolding lower includes
contains_sensitive_directive value = any (includes (lower value)) sensitive_directives
