-- ===== src/Desktop/Migration/Steps.antt =====
-- apps/desktop/src/main/secrets/migrateDesktopSecrets.ts: what single steps of the migration do
-- over a lawful repository.
use nginx_admin.Common.{
  true, Option, none, some, List, [], ◌∷◌, Text, ◌≡◌, refl, ap, ◌===◌, ◌∙◌, sym, All, if◌then◌else◌,
  any, arith, ===_iff,
}
use nginx_admin.Common.Keyed.{find_key, remove_key, find_key-remove_key}
use nginx_admin.Desktop.Faults.{Fault, Result, ok, fail, Action, and_then, ◌>>=◌}
use nginx_admin.Desktop.HostSecrets.{HostSecrets, SecretsRepository}
use nginx_admin.Desktop.HostSecrets.Normal.{IsLawful, kept}
use nginx_admin.Desktop.Files.{Env, name_of}
use nginx_admin.Desktop.EnvFile.{
  remove_all, secret_env_keys, is_secret_key, clear_secret_process_env,
}
use nginx_admin.Desktop.Migration.{
  World, marker_host, on_store, with_marker, run_desktop_secrets_migration,
}

find_key-remove_all :
    (key : Text) (keys : List Text) (env : Env)
    → find_key name_of key (remove_all keys env)
      ≡ (if any (λ k. key === k) keys then none else find_key name_of key env)
find_key-remove_all key [] env = refl
find_key-remove_all key (k ∷ keys) env = ground (
  arith,
  find_key-remove_all key keys (remove_key name_of k env),
  find_key-remove_key name_of key k env,
  ===_iff key k,
  ===_iff k key,
)

-- Of the environment `clearSecretProcessEnv` takes the five secrets and nothing else.
pub find_key-clear_secret_process_env :
    (key : Text) (env : Env)
    → find_key name_of key (clear_secret_process_env env)
      ≡ (if is_secret_key key then none else find_key name_of key env)
unfolding clear_secret_process_env is_secret_key
find_key-clear_secret_process_env key env = find_key-remove_all key secret_env_keys env

remove_key-absent :
    (key : Text) (env : Env) → find_key name_of key env ≡ none → remove_key name_of key env ≡ env
unfolding find_key remove_key
remove_key-absent key [] h = refl
remove_key-absent key (v ∷ env) h = ground (arith, remove_key-absent key env)

remove_all-absent :
    (keys : List Text) (env : Env)
    → All (λ key. find_key name_of key env ≡ none) keys
    → remove_all keys env ≡ env
remove_all-absent [] env h = refl
remove_all-absent (key ∷ keys) env (k, h) =
    rw (remove_key-absent key env k) (remove_all-absent keys env h)

pub clear_secret_process_env-absent :
    (env : Env)
    → ((key : Text) → is_secret_key key ≡ true → find_key name_of key env ≡ none)
    → clear_secret_process_env env ≡ env
unfolding clear_secret_process_env is_secret_key
clear_secret_process_env-absent env h =
    remove_all-absent secret_env_keys env
      (h _ refl, (h _ refl, (h _ refl, (h _ refl, (h _ refl, tt)))))

module _ (r : SecretsRepository) (lawful : IsLawful r) where
  pub record Stored (host : Text) (s : HostSecrets) (w v : World r.Store) : Type 0 where
    pub same_env : v.env ≡ w.env
    pub same_files : v.files ≡ w.files
    pub reads :
        (other : Text)
        → (r.get other v.store).0
          ≡ (if host === other then ok (some (kept s)) else (r.get other w.store).0)

  pub set-Stored :
      (host : Text) (s : HostSecrets) (w v : World r.Store)
      → on_store r (r.set host s) w ≡ (ok tt, v)
      → Stored host s w v
  set-Stored host s w v e = record {
    same_env = sym (ap (λ p. p.1.env) e);
    same_files = sym (ap (λ p. p.1.files) e);
    reads = λ other. lawful.get-set host other s w.store v.store (ap (λ p. (p.0, p.1.store)) e);
  }

  pub set_refused-same :
      (host : Text) (s : HostSecrets) (f : Fault) (w v : World r.Store)
      → on_store r (r.set host s) w ≡ (fail f, v)
      → v ≡ w
  set_refused-same host s f w v e =
      let same = lawful.set_refused host s f w.store v.store (ap (λ p. (p.0, p.1.store)) e) in
      ground arith

  -- Reading a host and going on.
  pub bind-get :
      {B : Type 0} (host : Text) (k : Option HostSecrets → Action (World r.Store) B)
      (w : World r.Store)
      → (on_store r (r.get host) >>= k) w ≡ and_then (r.get host w.store).0 k w
  bind-get host k w = rw (lawful.get_same host w.store)

  second_read :
      (env_path : Option Text) (host : Text) (w : World r.Store) (x : Result (Option HostSecrets))
      → and_then x (λ marker. on_store r (r.get host) >>= with_marker r env_path host marker) w
        ≡ and_then x
            (λ marker. and_then (r.get host w.store).0 (with_marker r env_path host marker))
            w
  second_read env_path host w (ok marker) = bind-get host (with_marker r env_path host marker) w
  second_read env_path host w (fail f) = refl

  -- The two reads at the start of a migration.
  pub run_lem :
      (env_path : Option Text) (host : Text) (w : World r.Store)
      → run_desktop_secrets_migration r env_path host w
        ≡ and_then
            (r.get marker_host w.store).0
            (λ marker. and_then (r.get host w.store).0 (with_marker r env_path host marker))
            w
  unfolding run_desktop_secrets_migration
  run_lem env_path host w =
      bind-get marker_host
        (λ marker. on_store r (r.get host) >>= with_marker r env_path host marker) w
      ∙ second_read env_path host w (r.get marker_host w.store).0
