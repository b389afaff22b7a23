-- ===== src/Desktop/Migration/Done.antt =====
-- apps/desktop/src/main/secrets/migrateDesktopSecrets.ts: the state after a migration that returns.
use nginx_admin.Common.{
  true, false, not, Option, none, some, Text, ◌≡◌, refl, ap, ◌===◌, ◌∙◌, sym, subst, if◌then◌else◌,
  ===_refl, Bool-cases, inl, inr,
}
use nginx_admin.Common.Keyed.{find_key}
use nginx_admin.Desktop.Faults.{Result, ok, fail, and_then, >>=-eq-ok, and_then-eq-ok}
use nginx_admin.Desktop.HostSecrets.{HostSecrets, has_host_secrets, has_secrets, SecretsRepository}
use nginx_admin.Desktop.HostSecrets.Normal.{IsLawful, kept}
use nginx_admin.Desktop.Files.{name_of}
use nginx_admin.Desktop.EnvFile.{is_secret_key, cleanup_env_file}
use nginx_admin.Desktop.Migration.{
  World, Migration, marker_host, completed, merged, on_store, on_files, unmigrated, without_secrets,
  with_marker, collect_env_secrets, clean_up, verify_and_clean_up, move_secrets, first_migration,
  run_desktop_secrets_migration,
}
use nginx_admin.Desktop.Migration.Steps.{
  clear_secret_process_env-absent, run_lem, set-Stored, bind-get, find_key-clear_secret_process_env,
}

module _ (r : SecretsRepository) where
  -- The marker is set, the result says what the repository holds for the host, and no variable of
  -- the process is a secret.
  pub record IsDone (host : Text) (m : Migration) (w : World r.Store) : Type 0 where
    pub marked : (s : HostSecrets) × ((r.get marker_host w.store).0 ≡ ok (some s))
    pub stored : (r.get host w.store).0 ≡ ok m.secrets
    pub cleared : (key : Text) → is_secret_key key ≡ true → find_key name_of key w.env ≡ none

  abbrev Ends : Text → Result Migration × World r.Store → Type 0
  Ends host (ok m, w) = IsDone host m w
  Ends host (fail f, w) = Unit

module _ (r : SecretsRepository) (lawful : IsLawful r) (host : Text)
    (other : (marker_host === host) ≡ false) where
  without_secrets-IsDone :
      (existing : Option HostSecrets) (w w' : World r.Store) (m : Migration)
      → (r.get host w.store).0 ≡ ok existing
      → without_secrets r host existing w ≡ (ok m, w')
      → IsDone r host m w'
  without_secrets-IsDone existing w w' m e h =
      let (_, v, set, rest) = >>=-eq-ok (on_store r (r.set marker_host completed)) _ w w' m h in
      let s = set-Stored r lawful marker_host completed w v set in
      subst (Ends r host) rest (record {
        marked = (completed, s.reads marker_host ∙ rw (===_refl marker_host));
        stored = s.reads host ∙ rw other e;
        cleared = λ key k. find_key-clear_secret_process_env key v.env ∙ rw k;
      })

  clean_up-IsDone :
      (env_path : Option Text) (stored : Option HostSecrets) (w w' : World r.Store) (m : Migration)
      → (r.get host w.store).0 ≡ ok stored
      → clean_up r env_path host stored w ≡ (ok m, w')
      → IsDone r host m w'
  clean_up-IsDone env_path stored w w' m e h =
      let (c, u, files, rest) = >>=-eq-ok (on_files r (cleanup_env_file env_path)) _ w w' m h in
      let (_, v, set, rest2) = >>=-eq-ok (on_store r (r.set marker_host completed)) _ _ w' m rest in
      let s = set-Stored r lawful marker_host completed _ v set in
      let same : u.store ≡ w.store = sym (ap (λ p. p.1.store) files) in
      subst (Ends r host) rest2 (record {
        marked = (completed, s.reads marker_host ∙ rw (===_refl marker_host));
        stored = s.reads host ∙ rw (other, same) e;
        cleared = λ key k. rw s.same_env (find_key-clear_secret_process_env key u.env ∙ rw k);
      })

  verify_and_clean_up-IsDone :
      (env_path : Option Text) (stored : Option HostSecrets) (w w' : World r.Store) (m : Migration)
      → (r.get host w.store).0 ≡ ok stored
      → verify_and_clean_up r env_path host stored w ≡ (ok m, w')
      → IsDone r host m w'
  verify_and_clean_up-IsDone env_path stored w w' m e h = elim (Bool-cases (has_secrets stored)) [
    | inl k ↦ clean_up-IsDone env_path stored w w' m e (rw k at h)
    | inr k ↦ let h' = rw k at h in cc
  ]

  move_secrets-IsDone :
      (env_path : Option Text) (existing : Option HostSecrets) (secrets : HostSecrets)
      (w w' : World r.Store) (m : Migration)
      → move_secrets r env_path host existing secrets w ≡ (ok m, w')
      → IsDone r host m w'
  unfolding move_secrets
  move_secrets-IsDone env_path existing secrets w w' m h =
      let (_, v, set, rest) =
        >>=-eq-ok (on_store r (r.set host (merged existing secrets))) _ w w' m h in
      let s = set-Stored r lawful host (merged existing secrets) w v set in
      let kept_all : (r.get host v.store).0 ≡ ok (some (kept (merged existing secrets))) =
        s.reads host ∙ rw (===_refl host) in
      let rest2 = rw (bind-get r lawful host, kept_all) at rest in
      verify_and_clean_up-IsDone env_path (some (kept (merged existing secrets))) v w' m kept_all
        rest2

  first_migration-IsDone :
      (env_path : Option Text) (existing : Option HostSecrets) (w w' : World r.Store)
      (m : Migration)
      → (r.get host w.store).0 ≡ ok existing
      → first_migration r env_path host existing w ≡ (ok m, w')
      → IsDone r host m w'
  unfolding first_migration
  first_migration-IsDone env_path existing w w' m e h =
      let (secrets, v, same, rest) =
        and_then-eq-ok
          (λ secrets.
            if not (has_host_secrets secrets)
            then without_secrets r host existing
            else move_secrets r env_path host existing secrets)
          (collect_env_secrets w.files w.env, w) refl w' m h in
      let e' : (r.get host v.store).0 ≡ ok existing = rw (← (ap (λ p. p.1) same)) e in
      elim (Bool-cases (has_host_secrets secrets)) [
        | inl k ↦ move_secrets-IsDone env_path existing secrets v w' m (rw k at rest)
        | inr k ↦ without_secrets-IsDone existing v w' m e' (rw k at rest)
      ]

  -- The migration after the two reads.
  with_marker-IsDone :
      (env_path : Option Text) (marker existing : Option HostSecrets) (w w' : World r.Store)
      (m : Migration)
      → (r.get marker_host w.store).0 ≡ ok marker
      → (r.get host w.store).0 ≡ ok existing
      → with_marker r env_path host marker existing w ≡ (ok m, w')
      → IsDone r host m w'
  with_marker-IsDone env_path none existing w w' m e e' h =
      first_migration-IsDone env_path existing w w' m e' h
  with_marker-IsDone env_path (some s) existing w w' m e e' h = subst (Ends r host) h (record {
    marked = (s, e);
    stored = e';
    cleared = λ key k. find_key-clear_secret_process_env key w.env ∙ rw k;
  })

  run-IsDone :
      (env_path : Option Text) (w w' : World r.Store) (m : Migration)
      (x y : Result (Option HostSecrets))
      → (r.get marker_host w.store).0 ≡ x
      → (r.get host w.store).0 ≡ y
      → and_then x (λ marker. and_then y (with_marker r env_path host marker)) w ≡ (ok m, w')
      → IsDone r host m w'
  run-IsDone env_path w w' m (fail f) y e e' h = cc
  run-IsDone env_path w w' m (ok marker) (fail f) e e' h = cc
  run-IsDone env_path w w' m (ok marker) (ok existing) e e' h =
      with_marker-IsDone env_path marker existing w w' m e e' h

  -- After a migration that returns, the marker is set, the result tells what the repository holds
  -- for the host, and none of the five variables with secrets is left in the environment.
  pub migration-IsDone :
      (env_path : Option Text) (w w' : World r.Store) (m : Migration)
      → run_desktop_secrets_migration r env_path host w ≡ (ok m, w')
      → IsDone r host m w'
  migration-IsDone env_path w w' m h =
      run-IsDone env_path w w' m _ _ refl refl (rw (run_lem r lawful env_path host w) at h)

  -- A second migration changes nothing and gives the secrets of the first.
  migration-migration :
      (env_path env_path' : Option Text) (w w' : World r.Store) (m : Migration)
      → run_desktop_secrets_migration r env_path host w ≡ (ok m, w')
      → run_desktop_secrets_migration r env_path' host w' ≡ (ok (unmigrated r host m.secrets), w')
  migration-migration env_path env_path' w w' m h =
      let d = migration-IsDone env_path w w' m h in
      let (s, marked) = d.marked in
      run_lem r lawful env_path' host w'
      ∙ rw (marked, d.stored, clear_secret_process_env-absent w'.env d.cleared)
