-- ===== src/Desktop/Migration.antt =====
-- apps/desktop/src/main/secrets/migrateDesktopSecrets.ts: `runDesktopSecretsMigration`.
pub mod Steps
pub mod Given
pub mod Done
pub mod Safe
use nginx_admin.Common.{
  Bool, true, false, not, ◌&&◌, Option, none, some, Text, text, if◌then◌else◌, is_some, truthy,
  trim,
}
use nginx_admin.Desktop.Faults.{
  secrets_error, migration_failed, Result, ok, fail, then_try, Action, pure, throw, and_then, ◌>>=◌,
  ◌>>◌,
}
use nginx_admin.Desktop.HostSecrets.{HostSecrets, has_host_secrets, has_secrets, SecretsRepository}
use nginx_admin.Desktop.Files.{Files, Env, variable, exists_file, read_file}
use nginx_admin.Desktop.EnvFile.{cleanup_env_file, clear_secret_process_env}

abbrev pub marker_host : Text
marker_host = text "__migration_desktop_env_v1__"

abbrev non_blank : Option Text → Option Text
non_blank none = none
non_blank (some v) = if truthy v && truthy (trim v) then some v else none

unfoldable pub get_env : Text → Env → Option Text
unfolding trim
get_env key env = non_blank (variable key env)

abbrev key_from_file : Text → Files → Result (Option Text)
key_from_file path files = then_try (read_file path files) λ content. ok (some content)

abbrev private_key_of : Option Text → Option Text → Files → Result (Option Text)
private_key_of (some path) legacy files =
    if not (exists_file path files)
    then fail (secrets_error (text "SSH private key file was not found") migration_failed)
    else key_from_file path files
private_key_of none none files = ok none
private_key_of none (some legacy) files =
    if exists_file legacy files then key_from_file legacy files else ok (some legacy)

unfoldable pub read_private_key_from_env : Files → Env → Result (Option Text)
unfolding get_env read_file
read_private_key_from_env files env =
    private_key_of (get_env (text "SSH_PRIVATE_KEY_PATH") env)
      (get_env (text "SSH_PRIVATE_KEY") env) files

unfoldable pub collect_env_secrets : Files → Env → Result HostSecrets
unfolding read_private_key_from_env
collect_env_secrets files env = then_try (read_private_key_from_env files env) λ key. ok (record {
  username = get_env (text "SSH_USERNAME") env;
  password = get_env (text "SSH_PASSWORD") env;
  token = none;
  private_key = key;
  passphrase = get_env (text "SSH_PASSPHRASE") env;
})

abbrev token_of : Option HostSecrets → Option Text
token_of none = none
token_of (some s) = s.token

-- `{ ...existing, ...envSecrets }`: the second object has all fields but `token`, also those that
-- are undefined.
abbrev pub merged : Option HostSecrets → HostSecrets → HostSecrets
merged existing env_secrets = record env_secrets { token = token_of existing }

-- `{ token: "completed" }`
abbrev pub completed : HostSecrets
completed = record {
  username = none;
  password = none;
  token = some (text "completed");
  private_key = none;
  passphrase = none;
}

-- `DesktopSecretsMigrationResult`
pub record Migration : Type 0 where
  pub host_id : Text
  pub migrated : Bool
  pub cleaned_env_file : Bool
  pub secrets : Option HostSecrets

-- What the migration works on: the state of the repository, `process.env` and the files.
pub record World (S : Type 0) : Type 0 where
  pub store : S
  pub env : Env
  pub files : Files

module _ (r : SecretsRepository) where
  abbrev pub on_store : {A : Type 0} → Action r.Store A → Action (World r.Store) A
  on_store m w = let (x, s) = m w.store in (x, record w { store = s })

  abbrev pub on_files : {A : Type 0} → Action Files A → Action (World r.Store) A
  on_files m w = let (x, fs) = m w.files in (x, record w { files = fs })

  abbrev pub clear_env : Action (World r.Store) (Unit {0})
  clear_env w = (ok tt, record w { env = clear_secret_process_env w.env })

  abbrev pub store_marker : Action (World r.Store) (Unit {0})
  store_marker = on_store (r.set marker_host completed)

  abbrev pub unmigrated : Text → Option HostSecrets → Migration
  unmigrated host existing = record {
    host_id = host;
    migrated = false;
    cleaned_env_file = false;
    secrets = existing;
  }

  -- The rest of a migration whose secrets are stored.
  abbrev pub after_clean_up : Text → Option HostSecrets → Bool → Action (World r.Store) Migration
  after_clean_up host stored cleaned = do
    clear_env
    store_marker
    pure (record { host_id = host; migrated = true; cleaned_env_file = cleaned; secrets = stored })

  abbrev pub clean_up : Option Text → Text → Option HostSecrets → Action (World r.Store) Migration
  clean_up env_path host stored =
      on_files (cleanup_env_file env_path) >>= after_clean_up host stored

  abbrev pub verify_and_clean_up :
      Option Text → Text → Option HostSecrets → Action (World r.Store) Migration
  verify_and_clean_up env_path host stored =
      if not (has_secrets stored)
      then throw
          (secrets_error (text "Unable to verify migrated host credentials") migration_failed)
      else clean_up env_path host stored

  unfoldable pub move_secrets :
      Option Text → Text → Option HostSecrets → HostSecrets → Action (World r.Store) Migration
  unfolding cleanup_env_file clear_secret_process_env has_host_secrets
  move_secrets env_path host existing env_secrets = do
    on_store (r.set host (merged existing env_secrets))
    stored ← on_store (r.get host)
    verify_and_clean_up env_path host stored

  abbrev pub without_secrets : Text → Option HostSecrets → Action (World r.Store) Migration
  without_secrets host existing = do store_marker; clear_env; pure (unmigrated host existing)

  unfoldable pub first_migration :
      Option Text → Text → Option HostSecrets → Action (World r.Store) Migration
  unfolding move_secrets collect_env_secrets
  first_migration env_path host existing w =
      and_then (collect_env_secrets w.files w.env)
        (λ env_secrets.
          if not (has_host_secrets env_secrets)
          then without_secrets host existing
          else move_secrets env_path host existing env_secrets)
        w

  abbrev pub with_marker :
      Option Text
      → Text
      → Option HostSecrets
      → Option HostSecrets
      → Action (World r.Store) Migration
  with_marker env_path host (some marker) existing = do clear_env; pure (unmigrated host existing)
  with_marker env_path host none existing = first_migration env_path host existing

  unfoldable pub run_desktop_secrets_migration :
      Option Text → Text → Action (World r.Store) Migration
  unfolding first_migration
  run_desktop_secrets_migration env_path host = do
    marker ← on_store (r.get marker_host)
    existing ← on_store (r.get host)
    with_marker env_path host marker existing
