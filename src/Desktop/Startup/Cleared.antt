-- ===== src/Desktop/Startup/Cleared.antt =====
-- apps/desktop/src/main/main.ts: the environment after `createSshRuntime`.
use nginx_admin.Common.{ℕ, true, false, Option, none, Text, text, ◌≡◌, refl, ap, ◌===◌, ◌∙◌, subst}
use nginx_admin.Common.Keyed.{find_key}
use nginx_admin.Desktop.Faults.{Result, ok, fail, and_then}
use nginx_admin.Desktop.HostSecrets.{SecretsRepository}
use nginx_admin.Desktop.HostSecrets.Normal.{IsLawful}
use nginx_admin.Desktop.Files.{name_of, variable}
use nginx_admin.Desktop.EnvFile.{is_secret_key}
use nginx_admin.Desktop.Migration.{World, Migration, marker_host, run_desktop_secrets_migration}
use nginx_admin.Desktop.Migration.Steps.{find_key-clear_secret_process_env}
use nginx_admin.Desktop.Migration.Done.{migration-IsDone}
use nginx_admin.Desktop.Startup.{
  SshRuntime, parse_port, secrets_or_none, with_runtime, create_ssh_runtime,
}

module _ (r : SecretsRepository) (lawful : IsLawful r) where
  abbrev Clear : World r.Store → Type 0
  Clear w = (key : Text) → is_secret_key key ≡ true → find_key name_of key w.env ≡ none

  other : (marker_host === text "default") ≡ false
  unfolding ◌===◌
  other = refl

  secrets_or_none-Clear :
      (env_path : Option Text) (w : World r.Store) (p : Result Migration × World r.Store)
      → run_desktop_secrets_migration r env_path (text "default") w ≡ p
      → Clear (secrets_or_none r p).1
  secrets_or_none-Clear env_path w (ok m, v) e =
      (migration-IsDone r lawful (text "default") other env_path w v m e).cleared
  secrets_or_none-Clear env_path w (fail f, v) e =
      λ key k. find_key-clear_secret_process_env key v.env ∙ rw k

  with_port-Clear :
      (host : Text) (env_path : Option Text) (x : Result ℕ) (w w' : World r.Store)
      (runtime : SshRuntime)
      → and_then x (with_runtime r host env_path) w ≡ (ok runtime, w')
      → Clear w'
  with_port-Clear host env_path (fail f) w w' runtime h = cc
  with_port-Clear host env_path (ok port) w w' runtime h =
      subst Clear (ap (λ p. p.1) h) (secrets_or_none-Clear env_path w _ refl)

  -- Once the runtime is made, no variable of the process is a secret, whether the migration
  -- returned or threw.
  create_ssh_runtime-cleared :
      (to_integer : Text → Option ℕ) (env_path : Option Text) (w w' : World r.Store)
      (runtime : SshRuntime) (key : Text)
      → create_ssh_runtime r to_integer env_path w ≡ (ok runtime, w')
      → is_secret_key key ≡ true
      → find_key name_of key w'.env ≡ none
  unfolding create_ssh_runtime
  create_ssh_runtime-cleared to_integer env_path w w' runtime key h k =
      with_port-Clear _ env_path (parse_port to_integer (variable (text "SSH_PORT") w.env) 22) w w'
        runtime h key k
