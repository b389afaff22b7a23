-- ===== src/Desktop/Migration/Given.antt =====
-- apps/desktop/src/main/secrets/migrateDesktopSecrets.ts: the secrets that the environment gives.
use nginx_admin.Common.{
  false, Option, none, some, [], ◌∷◌, Text, text, ◌≡◌, refl, if◌then◌else◌, Bool-cases, subst, inl,
  inr, truthy, trim,
}
use nginx_admin.Desktop.Faults.{Result, ok, fail, then_try}
use nginx_admin.Desktop.HostSecrets.{HostSecrets}
use nginx_admin.Desktop.Files.{Files, Env, variable, exists_file, read_file}
use nginx_admin.Desktop.Migration.{
  non_blank, get_env, private_key_of, read_private_key_from_env, collect_env_secrets,
}

abbrev pub unless_blank : Option Text → Option Text
unless_blank none = none
unless_blank (some v) = if truthy (trim v) then some v else none

-- The value of a variable that is set to more than white space.
abbrev pub given : Text → Env → Option Text
given key env = unless_blank (variable key env)

non_blank-unless_blank : (o : Option Text) → non_blank o ≡ unless_blank o
unfolding trim
non_blank-unless_blank none = refl
non_blank-unless_blank (some []) = refl
non_blank-unless_blank (some (c ∷ s)) = refl

pub get_env-given : (key : Text) (env : Env) → get_env key env ≡ given key env
unfolding get_env
get_env-given key env = non_blank-unless_blank (variable key env)

-- The private key: the file that one variable names, or else the other variable, which is the path
-- of a file or the key itself.
pub data KeyGiven (files : Files) (path legacy : Option Text) : Option Text → Type 0 where
  named :
      (p content : Text)
      → path ≡ some p
      → read_file p files ≡ ok content
      → KeyGiven files path legacy (some content)
  in_file :
      (p content : Text)
      → path ≡ none
      → legacy ≡ some p
      → read_file p files ≡ ok content
      → KeyGiven files path legacy (some content)
  itself :
      (v : Text)
      → path ≡ none
      → legacy ≡ some v
      → exists_file v files ≡ false
      → KeyGiven files path legacy (some v)
  no_key : path ≡ none → legacy ≡ none → KeyGiven files path legacy none

read_content :
    (x : Result Text) (key : Option Text)
    → then_try x (λ content. ok (some content)) ≡ ok key
    → (content : Text) × (x ≡ ok content) × (some content ≡ key)
read_content (ok content) key e = (content, refl, cc)
read_content (fail f) key e = cc

private_key_of-KeyGiven :
    (files : Files) (path legacy key : Option Text)
    → private_key_of path legacy files ≡ ok key
    → KeyGiven files path legacy key
private_key_of-KeyGiven files (some p) legacy key e = elim (Bool-cases (exists_file p files)) [
  | inl there ↦
      let (content, read, same) = read_content (read_file p files) key (rw there at e) in
      subst (KeyGiven files (some p) legacy) same (named p content refl read)
  | inr missing ↦ let h = rw missing at e in cc
]
private_key_of-KeyGiven files none none key e =
    let same : none ≡ key = cc in subst (KeyGiven files none none) same (no_key refl refl)
private_key_of-KeyGiven files none (some v) key e = elim (Bool-cases (exists_file v files)) [
  | inl there ↦
      let (content, read, same) = read_content (read_file v files) key (rw there at e) in
      subst (KeyGiven files none (some v)) same (in_file v content refl refl read)
  | inr missing ↦
      let h = rw missing at e in
      let same : some v ≡ key = cc in
      subst (KeyGiven files none (some v)) same (itself v refl refl missing)
]

-- What the environment gives with the private key `key`, and no token.
abbrev pub given_secrets : Env → Option Text → HostSecrets
given_secrets env key = record {
  username = given (text "SSH_USERNAME") env;
  password = given (text "SSH_PASSWORD") env;
  token = none;
  private_key = key;
  passphrase = given (text "SSH_PASSPHRASE") env;
}

abbrev pub KeyOf : Files → Env → Option Text → Type 0
KeyOf files env key =
    KeyGiven files (given (text "SSH_PRIVATE_KEY_PATH") env) (given (text "SSH_PRIVATE_KEY") env)
      key

collected-given :
    (files : Files) (env : Env) (x : Result (Option Text)) (s : HostSecrets)
    → ((key : Option Text) → x ≡ ok key → KeyOf files env key)
    → then_try x (λ key. ok (given_secrets env key)) ≡ ok s
    → (key : Option Text) × KeyOf files env key × (given_secrets env key ≡ s)
collected-given files env (ok key) s h e = (key, h key refl, cc)
collected-given files env (fail f) s h e = cc

pub collect_env_secrets-given :
    (files : Files) (env : Env) (s : HostSecrets)
    → collect_env_secrets files env ≡ ok s
    → (key : Option Text) × KeyOf files env key × (given_secrets env key ≡ s)
unfolding collect_env_secrets read_private_key_from_env
collect_env_secrets-given files env s e =
    collected-given files env
      (private_key_of (given (text "SSH_PRIVATE_KEY_PATH") env) (given (text "SSH_PRIVATE_KEY") env)
        files)
      s (λ key. private_key_of-KeyGiven files _ _ key)
      (rw
        (
          get_env-given (text "SSH_PRIVATE_KEY_PATH") env,
          get_env-given (text "SSH_PRIVATE_KEY") env,
          get_env-given (text "SSH_USERNAME") env,
          get_env-given (text "SSH_PASSWORD") env,
          get_env-given (text "SSH_PASSPHRASE") env,
        )
        at e)
