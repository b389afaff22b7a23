-- ===== src/Desktop/Keytar.antt =====
-- apps/desktop/src/main/secrets/KeytarSecretsRepository.ts
pub mod RoundTrip
pub mod Classified
use nginx_admin.Common.{
  ◌||◌, Option, none, some, [], ◌∷◌, ◌++◌, Text, text, if◌then◌else◌, includes, lower,
}
use nginx_admin.Secrets.{Value, redact_potential_secrets}
use nginx_admin.Desktop.Faults.{
  Code, keytar_unavailable, corrupted_credentials, access_denied, credential_manager_unavailable,
  Fault, secrets_error, other_error, Result, ok, fail, Action, rethrow, lift, and_then, throw,
  ◌>>=◌, ◌>>◌,
}
use nginx_admin.Desktop.HostSecrets.{
  HostSecrets, normalize_host_secrets, value_of, SecretsRepository,
}

-- `KeytarLike`, with the state of the key chain.
pub record KeytarLike : Type 1 where
  pub Chain : Type 0
  pub get_password : Text → Text → Action Chain (Option Text)
  pub set_password : Text → Text → Text → Action Chain (Unit {0})
  pub delete_password : Text → Text → Action Chain (Unit {0})

unfoldable pub account_for_host : Text → Text
account_for_host host = text "host:" ++ host

unfoldable pub code_of : Text → Code
unfolding includes
code_of normalized =
    if includes normalized (text "denied") || includes normalized (text "access")
    then access_denied
    else if includes normalized (text "secret service")
        || includes normalized (text "credential")
        || includes normalized (text "keychain")
        || includes normalized (text "libsecret")
    then credential_manager_unavailable
    else keytar_unavailable

unfoldable pub map_keytar_error : Text → Fault → Fault
unfolding code_of lower
map_keytar_error fallback (secrets_error message code) = secrets_error message code
map_keytar_error fallback (other_error raw) =
    let message = redact_potential_secrets raw in
    secrets_error (fallback ++ (text ": " ++ message)) (code_of (lower message))

-- `imported` tells whether the package `keytar` can be loaded.
unfoldable pub get_store : {S : Type 0} → Result (Unit {0}) → Action S (Unit {0})
unfolding map_keytar_error
get_store imported w = rethrow (map_keytar_error (text "Unable to load keytar")) (imported, w)

abbrev pub corrupted : Fault
corrupted = secrets_error (text "Stored host credentials are invalid") corrupted_credentials

abbrev pub or_corrupted : Result HostSecrets → Result (Option HostSecrets)
or_corrupted (ok s) = ok (some s)
or_corrupted (fail f) = fail corrupted

abbrev pub parsed_secrets : Option Value → Result (Option HostSecrets)
parsed_secrets none = fail corrupted
parsed_secrets (some v) = or_corrupted (normalize_host_secrets v)

-- `json_parse` is `JSON.parse`, which throws on a text that is no JSON.
unfoldable pub read_secrets : (Text → Option Value) → Option Text → Result (Option HostSecrets)
unfolding normalize_host_secrets
read_secrets json_parse none = ok none
read_secrets json_parse (some []) = ok none
read_secrets json_parse (some (c ∷ raw)) = parsed_secrets (json_parse (c ∷ raw))

-- `json_stringify` is `JSON.stringify`.
module _ (json_parse : Text → Option Value) (json_stringify : Value → Text) (keytar : KeytarLike)
    (service : Text) (imported : Result (Unit {0})) where
  open keytar use {Chain, get_password, set_password, delete_password}

  unfoldable pub get : Text → Action Chain (Option HostSecrets)
  unfolding get_store read_secrets account_for_host map_keytar_error
  get host w = rethrow (map_keytar_error (text "Unable to read host credentials")) (
      (do
        get_store imported
        raw ← get_password service (account_for_host host)
        lift (read_secrets json_parse raw))
        w)

  unfoldable pub set : Text → HostSecrets → Action Chain (Unit {0})
  unfolding get_store account_for_host map_keytar_error normalize_host_secrets value_of
  set host secrets = and_then (normalize_host_secrets (value_of secrets)) λ normalized w.
      rethrow (map_keytar_error (text "Unable to write host credentials")) (
        (do
          get_store imported
          set_password service (account_for_host host) (json_stringify (value_of normalized)))
          w)

  unfoldable pub delete : Text → Action Chain (Unit {0})
  unfolding get_store account_for_host map_keytar_error
  delete host w =
      rethrow (map_keytar_error (text "Unable to delete host credentials"))
        ((do get_store imported; delete_password service (account_for_host host)) w)

  abbrev pub keytar_secrets_repository : SecretsRepository
  keytar_secrets_repository = record { Store = Chain; get = get; set = set; delete = delete }
