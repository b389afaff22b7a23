-- ===== src/Desktop/Startup.antt =====
-- apps/desktop/src/main/main.ts: `createSshRuntime` with the migration, and the start of the
-- application. The window and the log of the console are not modelled.
pub mod Cleared
use nginx_admin.Common.{
  ℕ, zero, suc, Bool, true, false, not, ◌||◌, Option, none, some, List, [], ◌∷◌, ◌++◌, Text, text,
  if◌then◌else◌, or_else, truthy, join,
}
use nginx_admin.Secrets.{redact_potential_secrets}
use nginx_admin.Desktop.Faults.{
  Fault, secrets_error, other_error, Result, ok, fail, Action, and_then, ◌>>=◌, ◌>>◌, pure, throw,
}
use nginx_admin.Desktop.HostSecrets.{HostSecrets, is_set, SecretsRepository}
use nginx_admin.Desktop.Files.{Files, Env, variable, exists_file}
use nginx_admin.Desktop.Migration.{Migration, World, clear_env, run_desktop_secrets_migration}

unfoldable pub resolve_existing_path : List Text → List Text → Files → Result Text
resolve_existing_path all [] files =
    fail
      (other_error (text "Unable to resolve required file path. Checked: " ++ join (text ", ") all))
resolve_existing_path all (candidate ∷ more) files =
    let rest = resolve_existing_path all more files in
    if exists_file candidate files then ok candidate else rest

abbrev port_or_throw : Text → Option ℕ → Result ℕ
port_or_throw raw none = fail (other_error (text "Invalid SSH_PORT value: " ++ raw))
port_or_throw raw (some zero) = fail (other_error (text "Invalid SSH_PORT value: " ++ raw))
port_or_throw raw (some (suc n)) = ok (suc n)

-- `to_integer` is `Number`, where that is a natural number.
abbrev pub parse_port : (Text → Option ℕ) → Option Text → ℕ → Result ℕ
parse_port to_integer none fallback = ok fallback
parse_port to_integer (some []) fallback = ok fallback
parse_port to_integer (some (c ∷ raw)) fallback = port_or_throw (c ∷ raw) (to_integer (c ∷ raw))

unfoldable pub safe_error_message : Fault → Text
safe_error_message (secrets_error message code) = redact_potential_secrets message
safe_error_message (other_error message) = redact_potential_secrets message

-- `HostMetadata`, as far as it is set here.
pub record HostMetadata : Type 0 where
  pub id : Text
  pub name : Text
  pub host : Text
  pub port : ℕ
  pub description : Option Text

-- The connection that the executor is given, whether a way to log in is known, and the metadata.
pub record SshRuntime : Type 0 where
  pub host : Text
  pub username : Text
  pub port : ℕ
  pub password : Option Text
  pub private_key : Option Text
  pub passphrase : Option Text
  pub cli_path : Text
  pub has_auth : Bool
  pub metadata : HostMetadata

abbrev field_of : (HostSecrets → Option Text) → Option HostSecrets → Option Text
field_of f none = none
field_of f (some s) = f s

abbrev or_option : Option Text → Option Text → Option Text
or_option none b = b
or_option (some a) b = some a

unfoldable pub runtime_of : Text → ℕ → Option HostSecrets → Env → SshRuntime
runtime_of host port secrets env = record {
  host = host;
  username =
      or_else
        (or_option (field_of (λ s. s.username) secrets)
          (or_option (variable (text "USER") env) (variable (text "USERNAME") env)))
        (text "unknown");
  port = port;
  password = field_of (λ s. s.password) secrets;
  private_key = field_of (λ s. s.private_key) secrets;
  passphrase = field_of (λ s. s.passphrase) secrets;
  cli_path =
      or_else (variable (text "NGINX_ADMIN_CLI_PATH") env) (text "/usr/local/bin/nginx-admin-cli");
  has_auth =
      is_set (field_of (λ s. s.password) secrets) || is_set (field_of (λ s. s.private_key) secrets);
  metadata = record {
    id = text "default";
    name = or_else (variable (text "SSH_HOST_NAME") env) host;
    host = host;
    port = port;
    description = variable (text "SSH_HOST_DESCRIPTION") env;
  };
}

module _ (r : SecretsRepository) where
  -- `try { … } catch (error) { … clearSecretProcessEnv(); }`: the secrets, if there are any.
  abbrev pub secrets_or_none : Result Migration × World r.Store → Option HostSecrets × World r.Store
  secrets_or_none (ok m, w) = (m.secrets, w)
  secrets_or_none (fail f, w) = (none, (clear_env r w).1)

  abbrev pub with_runtime : Text → Option Text → ℕ → Action (World r.Store) SshRuntime
  with_runtime host env_path port w =
      let (secrets, v) =
        secrets_or_none (run_desktop_secrets_migration r env_path (text "default") w) in
      (ok (runtime_of host port secrets v.env), v)

  unfoldable pub create_ssh_runtime :
      (Text → Option ℕ) → Option Text → Action (World r.Store) SshRuntime
  unfolding run_desktop_secrets_migration runtime_of
  create_ssh_runtime to_integer env_path w =
      let host = or_else (variable (text "SSH_HOST") w.env) (text "127.0.0.1") in
      and_then (parse_port to_integer (variable (text "SSH_PORT") w.env) 22)
        (with_runtime host env_path) w
