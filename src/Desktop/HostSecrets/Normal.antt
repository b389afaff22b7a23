-- ===== src/Desktop/HostSecrets/Normal.antt =====
-- apps/desktop/src/main/secrets/SecretsRepository.ts: what `normalizeHostSecrets` keeps, and what
-- is asked of a repository.
use nginx_admin.Common.{Option, none, some, [], ◌∷◌, Text, ◌≡◌, refl, ◌===◌, if◌then◌else◌, arith}
use nginx_admin.Secrets.{
  Value, undefined, str, obj, Fields, end, field, fields_through_json, through_json,
}
use nginx_admin.Desktop.Faults.{Fault, ok, fail}
use nginx_admin.Desktop.HostSecrets.{
  HostSecrets, property_of, secret_field, or_undefined, normalize_host_secrets, value_of,
  has_host_secrets, is_set, SecretsRepository,
}

abbrev pub unless_empty : Option Text → Option Text
unless_empty none = none
unless_empty (some []) = none
unless_empty (some (c ∷ s)) = some (c ∷ s)

-- The secrets without those that are empty texts.
abbrev pub kept : HostSecrets → HostSecrets
kept s = record {
  username = unless_empty s.username;
  password = unless_empty s.password;
  token = unless_empty s.token;
  private_key = unless_empty s.private_key;
  passphrase = unless_empty s.passphrase;
}

secret_field-or_undefined :
    (k : Text) (o : Option Text) → secret_field k (or_undefined o) ≡ ok (unless_empty o)
secret_field-or_undefined k none = refl
secret_field-or_undefined k (some []) = refl
secret_field-or_undefined k (some (c ∷ s)) = refl

-- An object of strings is never refused.
pub normalize-value_of : (s : HostSecrets) → normalize_host_secrets (value_of s) ≡ ok (kept s)
unfolding normalize_host_secrets value_of ◌===◌
normalize-value_of s = rw (
  secret_field-or_undefined _ s.username,
  secret_field-or_undefined _ s.password,
  secret_field-or_undefined _ s.token,
  secret_field-or_undefined _ s.private_key,
  secret_field-or_undefined _ s.passphrase,
)

-- What a text of JSON keeps of a property that is a string or undefined, and where it finds it.
abbrev add : Text → Option Text → Fields → Fields
add k none fs = fs
add k (some s) fs = field k (str s) fs

abbrev over : Option Text → Value → Value
over none v = v
over (some s) v = str s

fields_through_json-or_undefined :
    (k : Text) (o : Option Text) (fs : Fields)
    → fields_through_json (field k (or_undefined o) fs) ≡ add k o (fields_through_json fs)
unfolding fields_through_json
fields_through_json-or_undefined k none fs = refl
fields_through_json-or_undefined k (some s) fs = refl

pub through_json-obj : (fs : Fields) → through_json (obj fs) ≡ obj (fields_through_json fs)
unfolding through_json
through_json-obj fs = refl

fields_through_json-end : fields_through_json end ≡ end
unfolding fields_through_json
fields_through_json-end = refl

property_of-add :
    (j k : Text) (o : Option Text) (fs : Fields)
    → property_of j (add k o fs) ≡ (if k === j then over o (property_of j fs) else property_of j fs)
unfolding property_of
property_of-add j k none fs = ground arith
property_of-add j k (some s) fs = refl

secret_field-over :
    (k : Text) (o : Option Text) → secret_field k (over o undefined) ≡ ok (unless_empty o)
secret_field-over k none = refl
secret_field-over k (some []) = refl
secret_field-over k (some (c ∷ s)) = refl

-- A text of JSON leaves the properties out that are `undefined`, which changes nothing.
pub normalize-through_json :
    (s : HostSecrets) → normalize_host_secrets (through_json (value_of s)) ≡ ok (kept s)
unfolding normalize_host_secrets value_of ◌===◌ property_of
normalize-through_json s = simp (
  through_json-obj, fields_through_json-end, fields_through_json-or_undefined, property_of-add,
  secret_field-over,
)

unless_empty-unless_empty : (o : Option Text) → unless_empty (unless_empty o) ≡ unless_empty o
unless_empty-unless_empty none = refl
unless_empty-unless_empty (some []) = refl
unless_empty-unless_empty (some (c ∷ s)) = refl

pub kept-kept : (s : HostSecrets) → kept (kept s) ≡ kept s
kept-kept s = rw (
  unless_empty-unless_empty s.username,
  unless_empty-unless_empty s.password,
  unless_empty-unless_empty s.token,
  unless_empty-unless_empty s.private_key,
  unless_empty-unless_empty s.passphrase,
)

is_set-unless_empty : (o : Option Text) → is_set (unless_empty o) ≡ is_set o
is_set-unless_empty none = refl
is_set-unless_empty (some []) = refl
is_set-unless_empty (some (c ∷ s)) = refl

pub has_host_secrets-kept : (s : HostSecrets) → has_host_secrets (kept s) ≡ has_host_secrets s
unfolding has_host_secrets
has_host_secrets-kept s = rw (
  is_set-unless_empty s.username,
  is_set-unless_empty s.password,
  is_set-unless_empty s.token,
  is_set-unless_empty s.private_key,
  is_set-unless_empty s.passphrase,
)

-- What the clients of a repository rely on: reading changes nothing, what was set is read back
-- without its empty texts and other hosts keep theirs, and a refused call changes nothing.
pub record IsLawful (r : SecretsRepository) : Type 0 where
  pub get_same : (host : Text) (w : r.Store) → (r.get host w).1 ≡ w
  pub get-set :
      (host other : Text) (s : HostSecrets) (w w' : r.Store)
      → r.set host s w ≡ (ok tt, w')
      → (r.get other w').0 ≡ (if host === other then ok (some (kept s)) else (r.get other w).0)
  pub set_refused :
      (host : Text) (s : HostSecrets) (f : Fault) (w w' : r.Store)
      → r.set host s w ≡ (fail f, w')
      → w' ≡ w
