-- ===== src/Desktop/HostSecrets.antt =====
-- apps/desktop/src/main/secrets/SecretsRepository.ts: `HostSecrets`, `normalizeHostSecrets`,
-- `hasHostSecrets`, and the interface of a repository.
pub mod Normal
use nginx_admin.Common.{
  Bool, true, false, ◌||◌, Option, none, some, [], ◌∷◌, ◌++◌, Text, text, ◌===◌, if◌then◌else◌,
  truthy,
}
use nginx_admin.Secrets.{Value, undefined, null, str, obj, Fields, end, field}
use nginx_admin.Desktop.Faults.{
  invalid_secret_format, secrets_error, Result, ok, fail, then_try, Action,
}

pub record HostSecrets : Type 0 where
  pub username : Option Text
  pub password : Option Text
  pub token : Option Text
  pub private_key : Option Text
  pub passphrase : Option Text

-- `source[key]`
unfoldable pub property_of : Text → Fields → Value
unfolding ◌===◌
property_of k end = undefined
property_of k (field j v fs) = let rest = property_of k fs in if j === k then v else rest

-- One round of the loop over `HOST_SECRET_KEYS`.
abbrev pub secret_field : Text → Value → Result (Option Text)
secret_field key undefined = ok none
secret_field key null = ok none
secret_field key (str []) = ok none
secret_field key (str (c ∷ s)) = ok (some (c ∷ s))
secret_field key _ =
    fail (secrets_error (text "Stored host secret field is invalid: " ++ key) invalid_secret_format)

abbrev pub secret_at : Text → Fields → Result (Option Text)
secret_at key source = secret_field key (property_of key source)

abbrev pub normalize_fields : Fields → Result HostSecrets
normalize_fields source = then_try (secret_at (text "username") source) λ u.
    then_try (secret_at (text "password") source) λ p.
      then_try (secret_at (text "token") source) λ t.
        then_try (secret_at (text "privateKey") source) λ k.
          then_try (secret_at (text "passphrase") source) λ q.
            ok (record { username = u; password = p; token = t; private_key = k; passphrase = q })

unfoldable pub normalize_host_secrets : Value → Result HostSecrets
unfolding property_of
normalize_host_secrets (obj source) = normalize_fields source
normalize_host_secrets _ =
    fail (secrets_error (text "Stored host secret payload is not an object") invalid_secret_format)

abbrev pub or_undefined : Option Text → Value
or_undefined none = undefined
or_undefined (some s) = str s

-- The object itself, as a value of the language.
unfoldable pub value_of : HostSecrets → Value
value_of s = obj (
    field (text "username") (or_undefined s.username) (
      field (text "password") (or_undefined s.password) (
        field (text "token") (or_undefined s.token) (
          field (text "privateKey") (or_undefined s.private_key)
            (field (text "passphrase") (or_undefined s.passphrase) end)))))

abbrev pub is_set : Option Text → Bool
is_set none = false
is_set (some s) = truthy s

-- For an object; of `null` and `undefined` it is `false`.
unfoldable pub has_host_secrets : HostSecrets → Bool
has_host_secrets s =
    is_set s.username
    || is_set s.password
    || is_set s.token
    || is_set s.private_key
    || is_set s.passphrase

abbrev pub has_secrets : Option HostSecrets → Bool
has_secrets none = false
has_secrets (some s) = has_host_secrets s

-- `SecretsRepository`, with the state that its operations work on.
pub record SecretsRepository : Type 1 where
  pub Store : Type 0
  pub get : Text → Action Store (Option HostSecrets)
  pub set : Text → HostSecrets → Action Store (Unit {0})
  pub delete : Text → Action Store (Unit {0})
