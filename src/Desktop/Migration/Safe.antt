-- ===== src/Desktop/Migration/Safe.antt =====
-- apps/desktop/src/main/secrets/migrateDesktopSecrets.ts: what the repository holds when a
-- migration has touched a file.
use nginx_admin.Common.{
  Bool, false, not, Option, none, some, Text, text, ◌≡◌, refl, ap, ◌===◌, ◌∙◌, sym, if◌then◌else◌,
  ===_refl, Bool-cases, inl, inr, ◌⊎◌,
}
use nginx_admin.Desktop.Faults.{Result, ok, fail, Action, pure, and_then, ◌>>=◌, ◌>>◌}
use nginx_admin.Desktop.HostSecrets.{HostSecrets, has_host_secrets, SecretsRepository}
use nginx_admin.Desktop.HostSecrets.Normal.{IsLawful, kept}
use nginx_admin.Desktop.EnvFile.{cleanup_env_file}
use nginx_admin.Desktop.Migration.{
  World, Migration, marker_host, completed, merged, on_store, on_files, clear_env, without_secrets,
  with_marker, token_of, collect_env_secrets, after_clean_up, verify_and_clean_up, move_secrets,
  first_migration, run_desktop_secrets_migration,
}
use nginx_admin.Desktop.Migration.Given.{given, given_secrets, KeyOf, collect_env_secrets-given}
use nginx_admin.Desktop.Migration.Steps.{run_lem, set-Stored, set_refused-same, bind-get}

abbrev pub held_token : Option HostSecrets → Option Text
held_token none = none
held_token (some s) = s.token

token_of-held_token : (o : Option HostSecrets) → token_of o ≡ held_token o
token_of-held_token none = refl
token_of-held_token (some s) = refl

module _ (r : SecretsRepository) where
  -- The repository holds what the environment gave before, with the token that it held itself.
  pub record Moved (host : Text) (w v : World r.Store) : Type 0 where
    pub existing : Option HostSecrets
    pub before : (r.get host w.store).0 ≡ ok existing
    pub key : Option Text
    pub key_given : KeyOf w.files w.env key
    pub held :
        (r.get host v.store).0
        ≡ ok (
            some (
              kept (record {
                username = given (text "SSH_USERNAME") w.env;
                password = given (text "SSH_PASSWORD") w.env;
                token = held_token existing;
                private_key = key;
                passphrase = given (text "SSH_PASSPHRASE") w.env;
              })))

  abbrev pub Kept : Text → World r.Store → World r.Store → Type 0
  Kept host w v = (v.files ≡ w.files) ⊎ Moved host w v

module _ (r : SecretsRepository) (lawful : IsLawful r) (host : Text)
    (other : (marker_host === host) ≡ false) where
  abbrev Holds : HostSecrets → World r.Store → Type 0
  Holds s w = (r.get host w.store).0 ≡ ok (some s)

  marked-Holds :
      (s : HostSecrets) (m : Migration) (u : World r.Store) (p : Result (Unit {0}) × World r.Store)
      → on_store r (r.set marker_host completed) u ≡ p
      → Holds s u
      → Holds s (and_then p.0 (λ _. pure m) p.1).1
  marked-Holds s m u (ok tt, v) e h =
      (set-Stored r lawful marker_host completed u v e).reads host ∙ rw other h
  marked-Holds s m u (fail f, v) e h =
      rw (set_refused-same r lawful marker_host completed f u v e) h

  cleaned-Holds :
      (s : HostSecrets) (stored : Option HostSecrets) (u : World r.Store)
      (q : Result Bool × World r.Store)
      → q.1.store ≡ u.store
      → Holds s u
      → Holds s (and_then q.0 (after_clean_up r host stored) q.1).1
  cleaned-Holds s stored u (ok c, v) e h = marked-Holds s _ _ _ refl (rw e h)
  cleaned-Holds s stored u (fail f, v) e h = rw e h

  moved-Kept :
      (env_path : Option Text) (existing : Option HostSecrets) (s : HostSecrets) (w : World r.Store)
      (p : Result (Unit {0}) × World r.Store)
      → (r.get host w.store).0 ≡ ok existing
      → collect_env_secrets w.files w.env ≡ ok s
      → on_store r (r.set host (merged existing s)) w ≡ p
      → Kept r host w
          (and_then p.0
            (λ _. on_store r (r.get host) >>= verify_and_clean_up r env_path host)
            p.1).1
  moved-Kept env_path existing s w (fail f, v) b c e = inl (sym (ap (λ p. p.1.files) e))
  moved-Kept env_path existing s w (ok tt, v) b c e =
      let all = kept (merged existing s) in
      let stored = set-Stored r lawful host (merged existing s) w v e in
      let held : Holds all v = stored.reads host ∙ rw (===_refl host) in
      let (key, key_given, same) = collect_env_secrets-given w.files w.env s c in
      let as_given =
        ap (λ g. kept (merged existing g)) (sym same)
        ∙ ap (λ t. kept (record (given_secrets w.env key) { token = t }))
            (token_of-held_token existing) in
      rw (bind-get r lawful host (verify_and_clean_up r env_path host) v, held)
        (elim (Bool-cases (has_host_secrets all)) [
          | inl k ↦ inr (record {
            existing = existing;
            before = b;
            key = key;
            key_given = key_given;
            held =
                rw k (
                  cleaned-Holds all (some all) v (on_files r (cleanup_env_file env_path) v) refl
                    held)
                ∙ ap (λ h. ok (some h)) as_given;
          })
          | inr k ↦ inl (rw k stored.same_files)
        ])

  marked-files :
      (m : Migration) (w : World r.Store) (x : Result (Unit {0})) (s : r.Store)
      → (and_then x (λ _. clear_env r >> pure m) (record w { store = s })).1.files ≡ w.files
  marked-files m w (ok tt) s = refl
  marked-files m w (fail f) s = refl

  abbrev with_env :
      Option Text → Option HostSecrets → HostSecrets → Action (World r.Store) Migration
  with_env env_path existing s =
      if not (has_host_secrets s)
      then without_secrets r host existing
      else move_secrets r env_path host existing s

  with_env-Kept :
      (env_path : Option Text) (existing : Option HostSecrets) (w : World r.Store)
      (c : Result HostSecrets)
      → (r.get host w.store).0 ≡ ok existing
      → collect_env_secrets w.files w.env ≡ c
      → Kept r host w (and_then c (with_env env_path existing) w).1
  unfolding move_secrets
  with_env-Kept env_path existing w (fail f) b e = inl refl
  with_env-Kept env_path existing w (ok s) b e = elim (Bool-cases (has_host_secrets s)) [
    | inl k ↦
        rw k (
          moved-Kept env_path existing s w (on_store r (r.set host (merged existing s)) w) b e refl)
    | inr k ↦ inl (rw k (marked-files _ w (r.set marker_host completed w.store).0 _))
  ]

  with_marker-Kept :
      (env_path : Option Text) (marker existing : Option HostSecrets) (w : World r.Store)
      → (r.get host w.store).0 ≡ ok existing
      → Kept r host w (with_marker r env_path host marker existing w).1
  unfolding first_migration
  with_marker-Kept env_path (some s) existing w b = inl refl
  with_marker-Kept env_path none existing w b =
      with_env-Kept env_path existing w (collect_env_secrets w.files w.env) b refl

  run-Kept :
      (env_path : Option Text) (w : World r.Store) (x y : Result (Option HostSecrets))
      → (r.get host w.store).0 ≡ y
      → Kept r host w (and_then x (λ marker. and_then y (with_marker r env_path host marker)) w).1
  run-Kept env_path w (fail f) y b = inl refl
  run-Kept env_path w (ok marker) (fail f) b = inl refl
  run-Kept env_path w (ok marker) (ok existing) b = with_marker-Kept env_path marker existing w b

  -- Whether the migration returns or throws, and at which step: either no file was touched, or the
  -- repository holds for the host the user name, the password, the passphrase and the private key
  -- that the environment gave, without those that are empty, and the token that it held before.
  -- What else it held for the host is gone.
  pub migration-Kept :
      (env_path : Option Text) (w : World r.Store)
      → Kept r host w (run_desktop_secrets_migration r env_path host w).1
  migration-Kept env_path w =
      rw (run_lem r lawful env_path host w)
        (run-Kept env_path w (r.get marker_host w.store).0 (r.get host w.store).0 refl)
