-- ===== src/Desktop/EnvFile.antt =====
-- The environment file of the desktop application: `cleanupEnvFile` and `clearSecretProcessEnv` of
-- apps/desktop/src/main/secrets/migrateDesktopSecrets.ts, and `loadDesktopEnv` of
-- apps/desktop/src/main/main.ts.
pub mod Lines
pub mod Cleaned
use nginx_admin.Common.{
  Bool, true, false, not, ◌&&◌, ◌||◌, Option, none, some, List, [], ◌∷◌, ◌++◌, Text, text, ◌===◌,
  ◌==◌, if◌then◌else◌, truthy, starts_with, trim, join, any, keep, find,
}
use nginx_admin.Common.Keyed.{has_key, remove_key}
use nginx_admin.Desktop.Faults.{Result, ok, fail, Action, lift, ◌>>=◌, ◌>>◌, pure}
use nginx_admin.Desktop.Files.{
  Files, Variable, Env, name_of, variable, exists_file, read_file, write_file,
}

abbrev cons_head : Text → List Text → List Text
cons_head c [] = c ∷ []
cons_head c (line ∷ lines) = (c ++ line) ∷ lines

-- `content.split(/\r?\n/u)`
unfoldable pub split_lines : Text → List Text
unfolding starts_with
split_lines [] = [] ∷ []
split_lines (c ∷ s) =
    let rest = split_lines s in
    if c == 10
    then [] ∷ rest
    else if c == 13 && starts_with s (10 ∷ [])
    then rest
    else cons_head (c ∷ []) rest

abbrev pub secret_env_keys : List Text
secret_env_keys =
    text "SSH_USERNAME"
    ∷ text "SSH_PASSWORD"
    ∷ text "SSH_PRIVATE_KEY"
    ∷ text "SSH_PRIVATE_KEY_PATH"
    ∷ text "SSH_PASSPHRASE"
    ∷ []

-- `SECRET_ENV_KEYS.has(key)`
unfoldable pub is_secret_key : Text → Bool
unfolding ◌===◌
is_secret_key key = any (λ k. key === k) secret_env_keys

abbrev longer : Text → Option (Text × Text) → Option (Text × Text)
longer c none = none
longer c (some (key, value)) = some (c ++ key, value)

-- The text before the first `=` and the text behind it; `none` for an index of -1.
unfoldable pub split_at_equals : Text → Option (Text × Text)
split_at_equals [] = none
split_at_equals (c ∷ s) =
    let rest = split_at_equals s in if c == b'=' then some ([], s) else longer (c ∷ []) rest

abbrev assignment : Option (Text × Text) → Option (Text × Text)
assignment none = none
assignment (some ([], value)) = none
assignment (some (c ∷ key, value)) = some (trim (c ∷ key), value)

abbrev entry_of_line : Text → Option (Text × Text)
entry_of_line line =
    if not (truthy line) || starts_with line (text "#")
    then none
    else assignment (split_at_equals line)

-- The key of a line and what stands behind its first `=`; a blank line, a comment and a line
-- without a key have none.
unfoldable pub entry : Text → Option (Text × Text)
unfolding trim starts_with split_at_equals
entry raw = entry_of_line (trim raw)

abbrev keeps : Option (Text × Text) → Bool
keeps none = true
keeps (some (key, value)) = not (is_secret_key key)

unfoldable pub cleaned_text : Text → Text
unfolding split_lines entry is_secret_key join
cleaned_text original = join (10 ∷ []) (keep (λ raw. keeps (entry raw)) (split_lines original))

unfoldable pub rewrite_file : Text → Text → Action Files Bool
unfolding cleaned_text write_file ◌===◌
rewrite_file path original =
    if cleaned_text original === original
    then pure false
    else do write_file path (cleaned_text original); pure true

unfoldable pub cleanup_env_file : Option Text → Action Files Bool
unfolding rewrite_file read_file
cleanup_env_file none files = (ok false, files)
cleanup_env_file (some path) files =
    if not (truthy path) || not (exists_file path files)
    then (ok false, files)
    else (do original ← lift (read_file path files); rewrite_file path original) files

abbrev pub remove_all : List Text → Env → Env
remove_all [] env = env
remove_all (key ∷ more) env = remove_all more (remove_key name_of key env)

unfoldable pub clear_secret_process_env : Env → Env
clear_secret_process_env env = remove_all secret_env_keys env

-- `value.slice(0, -1)`
unfoldable pub but_last : Text → Text
but_last [] = []
but_last (c ∷ []) = []
but_last (c ∷ d ∷ s) = c ∷ but_last (d ∷ s)

abbrev last_is : Text → Text → Bool
last_is q [] = false
last_is q (c ∷ []) = (c ∷ []) === q
last_is q (c ∷ d ∷ s) = last_is q (d ∷ s)

-- `value.slice(1, -1)`
abbrev inner : Text → Text
inner [] = []
inner (c ∷ s) = but_last s

abbrev quoted_by : Text → Text → Bool
quoted_by q value = starts_with value q && last_is q value

unfoldable pub parse_env_value : Text → Text
unfolding trim starts_with ◌===◌ but_last
parse_env_value raw =
    let value = trim raw in
    if quoted_by (34 ∷ []) value || quoted_by (text "'") value then inner value else value

-- One round of the loop of `loadDesktopEnv`.
abbrev applied : Option (Text × Text) → Env → Env
applied none env = env
applied (some (key, value)) env =
    if not (truthy key) || has_key name_of key env
    then env
    else env ++ (record { name = key; value = parse_env_value value }) ∷ []

unfoldable pub apply_lines : List Text → Env → Env
unfolding entry parse_env_value
apply_lines [] env = env
apply_lines (raw ∷ lines) env = apply_lines lines (applied (entry raw) env)

-- `Array.from(new Set(paths))`
abbrev distinct_from : List Text → List Text → List Text
distinct_from seen [] = []
distinct_from seen (p ∷ ps) =
    let rest = distinct_from (p ∷ seen) ps in if any (λ q. q === p) seen then rest else p ∷ rest

abbrev or_empty : Option Text → Text
or_empty none = []
or_empty (some s) = s

-- The candidates; `resolved` are the four paths that `path.resolve` gives.
unfoldable pub env_candidates : List Text → Env → List Text
unfolding ◌===◌
env_candidates resolved env =
    distinct_from [] (keep truthy (or_empty (variable (text "DESKTOP_ENV_PATH") env) ∷ resolved))

abbrev load_from : Option Text → Files → Action Env (Option Text)
load_from none files = pure none
load_from (some path) files = do
  content ← lift (read_file path files)
  λ env. (ok (some path), apply_lines (split_lines content) env)

unfoldable pub load_desktop_env : List Text → Files → Action Env (Option Text)
unfolding env_candidates read_file apply_lines split_lines
load_desktop_env resolved files env =
    load_from (find (λ path. exists_file path files) (env_candidates resolved env)) files env
