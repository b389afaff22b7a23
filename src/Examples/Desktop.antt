-- ===== src/Examples/Desktop.antt =====
-- Examples on the secrets of the desktop application and its start.
use nginx_admin.Common.{
  ℕ, true, false, Option, none, some, [], ◌∷◌, Text, text, ◌≡◌, refl, ◌===◌, if◌then◌else◌,
}
use nginx_admin.Common.Keyed.{find_key, has_key}
use nginx_admin.Desktop.Faults.{ok}
use nginx_admin.Desktop.HostSecrets.{HostSecrets, SecretsRepository}
use nginx_admin.Desktop.HostSecrets.Normal.{IsLawful}
use nginx_admin.Desktop.Keytar.{get, set, keytar_secrets_repository}
use nginx_admin.Desktop.Keytar.RoundTrip.{keytar-IsLawful}
use nginx_admin.Desktop.Files.{name_of}
use nginx_admin.Desktop.EnvFile.{is_secret_key, split_lines, apply_lines, cleaned_text}
use nginx_admin.Desktop.EnvFile.Cleaned.{load-cleaned_text}
use nginx_admin.Desktop.Migration.{World, Migration, run_desktop_secrets_migration, marker_host}
use nginx_admin.Desktop.Migration.Done.{IsDone, migration-IsDone}
use nginx_admin.Desktop.Migration.Safe.{Kept, migration-Kept}
use nginx_admin.Desktop.Startup.{SshRuntime, runtime_of, create_ssh_runtime}
use nginx_admin.Examples.KeyChain.{
  Chain, keytar, keytar-IsChain, json_parse, json_stringify, json-IsFaithful,
}

abbrev service : Text
service = text "nginx-admin"

abbrev host : Text
host = text "default"

abbrev content : Text
content = text "# desktop\r\nSSH_HOST=10.0.0.5\nSSH_PASSWORD = 'hunter 2'\r\n SSH_PORT=22\n"

load-cleaned_text_example :
    find_key name_of (text "SSH_PASSWORD") (apply_lines (split_lines (cleaned_text content)) []) ≡ (
      if is_secret_key (text "SSH_PASSWORD")
      then none
      else find_key name_of (text "SSH_PASSWORD") (apply_lines (split_lines content) []))
unfolding find_key
load-cleaned_text_example = load-cleaned_text content [] (text "SSH_PASSWORD")

cleaned_content : cleaned_text content ≡ text "# desktop\nSSH_HOST=10.0.0.5\n SSH_PORT=22\n"
unfolding cleaned_text
cleaned_content = refl

loaded_content :
    apply_lines (split_lines content) []
    ≡ record { name = text "SSH_HOST"; value = text "10.0.0.5" }
      ∷ record { name = text "SSH_PASSWORD"; value = text "hunter 2" }
      ∷ record { name = text "SSH_PORT"; value = text "22" }
      ∷ []
unfolding apply_lines split_lines has_key
loaded_content = refl

keytar-IsLawful_example :
    IsLawful (keytar_secrets_repository json_parse json_stringify keytar service (ok tt))
keytar-IsLawful_example =
    keytar-IsLawful json_parse json_stringify keytar service json-IsFaithful keytar-IsChain (ok tt)

abbrev no_secrets : HostSecrets
no_secrets = record {
  username = none;
  password = none;
  token = none;
  private_key = none;
  passphrase = none;
}

abbrev empty_chain : Chain
empty_chain _ _ = none

abbrev repository : SecretsRepository
repository = keytar_secrets_repository json_parse json_stringify keytar service (ok tt)

other_host : (marker_host === host) ≡ false
unfolding ◌===◌
other_host = refl

abbrev before : World Chain
before = record {
  store = empty_chain;
  env =
      record { name = text "SSH_HOST"; value = text "10.0.0.5" }
      ∷ record { name = text "SSH_PASSWORD"; value = text "hunter 2" }
      ∷ [];
  files =
      record { path = text "/app/.env"; content = content; readable = true; writable = true } ∷ [];
}

abbrev migrated : Migration
migrated = record {
  host_id = host;
  migrated = true;
  cleaned_env_file = true;
  secrets = some (record no_secrets { password = some (text "hunter 2") });
}

abbrev env_path : Option Text
env_path = some (text "/app/.env")

abbrev after : World Chain
after = (run_desktop_secrets_migration repository env_path host before).1

before_migrated :
    run_desktop_secrets_migration repository env_path host before ≡ (ok migrated, after)
unfolding run_desktop_secrets_migration get set json_parse json_stringify ◌===◌ find_key has_key
before_migrated = refl

migration-IsDone_example : IsDone repository host migrated after
migration-IsDone_example =
    migration-IsDone repository keytar-IsLawful_example host other_host env_path before after
      migrated before_migrated

migration-Kept_example :
    Kept repository host before (run_desktop_secrets_migration repository env_path host before).1
migration-Kept_example =
    migration-Kept repository keytar-IsLawful_example host other_host env_path before

abbrev to_integer : Text → Option ℕ
to_integer raw = none

abbrev started : World Chain
started = (create_ssh_runtime repository to_integer env_path before).1

abbrev runtime : SshRuntime
runtime = runtime_of (text "10.0.0.5") 22 migrated.secrets started.env

before_started : create_ssh_runtime repository to_integer env_path before ≡ (ok runtime, started)
unfolding create_ssh_runtime run_desktop_secrets_migration get set json_parse json_stringify ◌===◌
    find_key has_key
before_started = refl
