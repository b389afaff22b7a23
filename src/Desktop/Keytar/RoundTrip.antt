-- ===== src/Desktop/Keytar/RoundTrip.antt =====
-- apps/desktop/src/main/secrets/KeytarSecretsRepository.ts: the repository over a key chain that
-- keeps what it is given.
use nginx_admin.Common.{
  Bool, true, false, Option, some, [], ◌∷◌, Text, text, ◌≡◌, refl, ◌∙◌, ◌===◌, if◌then◌else◌,
  truthy,
}
use nginx_admin.Secrets.{Value, through_json}
use nginx_admin.Desktop.Faults.{
  Fault, Result, ok, fail, Action, rethrow, rethrown, rethrow_lem, rethrow-eq-ok, rethrow-eq-fail,
  and_then,
}
use nginx_admin.Desktop.HostSecrets.{HostSecrets, value_of}
use nginx_admin.Desktop.HostSecrets.Normal.{
  IsLawful, kept, kept-kept, normalize-value_of, normalize-through_json,
}
use nginx_admin.Desktop.Keytar.{
  KeytarLike, map_keytar_error, account_for_host, read_secrets, parsed_secrets, get, set,
  keytar_secrets_repository,
}

-- What is asked of `JSON`: the text of an object of strings is read back, without the properties
-- that are undefined, and is not empty.
pub record IsFaithful (json_parse : Text → Option Value) (json_stringify : Value → Text)
    : Type 0 where
  pub parse-stringify :
      (s : HostSecrets)
      → json_parse (json_stringify (value_of s)) ≡ some (through_json (value_of s))
  pub stringify_truthy : (s : HostSecrets) → truthy (json_stringify (value_of s)) ≡ true

-- What is asked of a key chain: reading changes nothing, a password that was set is read back, the
-- other accounts keep theirs, and a call that fails has changed nothing.
pub record IsChain (k : KeytarLike) : Type 0 where
  pub get_same : (service account : Text) (w : k.Chain) → (k.get_password service account w).1 ≡ w
  pub get-set :
      (service account other password : Text) (w w' : k.Chain)
      → k.set_password service account password w ≡ (ok tt, w')
      → (k.get_password service other w').0
        ≡ (if account === other then ok (some password) else (k.get_password service other w).0)
  pub set_refused :
      (service account password : Text) (f : Fault) (w w' : k.Chain)
      → k.set_password service account password w ≡ (fail f, w')
      → w' ≡ w

account-account : (h j : Text) → (account_for_host h === account_for_host j) ≡ (h === j)
unfolding account_for_host ◌===◌
account-account h j = refl

read_secrets-truthy :
    (json_parse : Text → Option Value) (raw : Text)
    → truthy raw ≡ true
    → read_secrets json_parse (some raw) ≡ parsed_secrets (json_parse raw)
unfolding read_secrets
read_secrets-truthy json_parse [] h = cc
read_secrets-truthy json_parse (c ∷ raw) h = refl

abbrev reading : Fault → Fault
reading = map_keytar_error (text "Unable to read host credentials")

abbrev writing : Fault → Fault
writing = map_keytar_error (text "Unable to write host credentials")

module _ (json_parse : Text → Option Value) (json_stringify : Value → Text) (keytar : KeytarLike)
    (service : Text) (json : IsFaithful json_parse json_stringify) (chain : IsChain keytar) where
  read_secrets-stringify :
      (s : HostSecrets)
      → read_secrets json_parse (some (json_stringify (value_of (kept s)))) ≡ ok (some (kept s))
  read_secrets-stringify s =
      read_secrets-truthy json_parse _ (json.stringify_truthy (kept s))
      ∙ rw (json.parse-stringify (kept s), normalize-through_json (kept s), kept-kept s)

  abbrev get' : (imported : Result (Unit {0})) → Text → Action keytar.Chain (Option HostSecrets)
  get' = get json_parse json_stringify keytar service

  abbrev set' : (imported : Result (Unit {0})) → Text → HostSecrets → Action keytar.Chain (Unit {0})
  set' = set json_parse json_stringify keytar service

  -- What `get` makes of what the key chain says.
  abbrev answer : Result (Option Text) → Result (Option HostSecrets)
  answer (ok raw) = rethrown reading (read_secrets json_parse raw)
  answer (fail f) = fail (reading f)

  answer_lem :
      (r : Result (Option Text)) (w : keytar.Chain)
      → rethrow reading (and_then r (λ raw s. (read_secrets json_parse raw, s)) w) ≡ (answer r, w)
  answer_lem (ok raw) w = rethrow_lem reading (read_secrets json_parse raw) w
  answer_lem (fail f) w = refl

  get'_lem :
      (h : Text) (w : keytar.Chain)
      → get' (ok tt) h w ≡ (answer (keytar.get_password service (account_for_host h) w).0, w)
  unfolding get
  get'_lem h w =
      answer_lem (keytar.get_password service (account_for_host h) w).0 _
      ∙ rw (chain.get_same service (account_for_host h) w)

  set'-ok :
      (i : Result (Unit {0})) (h : Text) (s : HostSecrets) (w w' : keytar.Chain)
      → set' i h s w ≡ (ok tt, w')
      → (i ≡ ok tt)
        × (keytar.set_password service (account_for_host h) (json_stringify (value_of (kept s))) w
            ≡ (ok tt, w'))
  unfolding set
  set'-ok (fail f) h s w w' e = let e' = rw (normalize-value_of s) at e in cc
  set'-ok (ok tt) h s w w' e =
      (refl, rethrow-eq-ok writing _ tt w' (rw (normalize-value_of s) at e))

  set'-fail :
      (i : Result (Unit {0})) (h : Text) (s : HostSecrets) (f : Fault) (w w' : keytar.Chain)
      → set' i h s w ≡ (fail f, w')
      → w' ≡ w
  unfolding set
  set'-fail (fail g) h s f w w' e = let e' = rw (normalize-value_of s) at e in cc
  set'-fail (ok tt) h s f w w' e =
      let (g, refused) = rethrow-eq-fail writing _ f w' (rw (normalize-value_of s) at e) in
      chain.set_refused service (account_for_host h) _ g w w' refused

  get'-same : (i : Result (Unit {0})) (h : Text) (w : keytar.Chain) → (get' i h w).1 ≡ w
  unfolding get
  get'-same (fail f) h w = refl
  get'-same (ok tt) h w = rw (get'_lem h w)

  answer-if :
      (b : Bool) (s : HostSecrets) (r : Result (Option Text))
      → answer (if b then ok (some (json_stringify (value_of (kept s)))) else r)
        ≡ (if b then ok (some (kept s)) else answer r)
  answer-if true s r = rw (read_secrets-stringify s)
  answer-if false s r = refl

  get'-set' :
      (i : Result (Unit {0})) (h j : Text) (s : HostSecrets) (w w' : keytar.Chain)
      → i ≡ ok tt
      → keytar.set_password service (account_for_host h) (json_stringify (value_of (kept s))) w
        ≡ (ok tt, w')
      → (get' i j w').0 ≡ (if h === j then ok (some (kept s)) else (get' i j w).0)
  get'-set' (fail f) h j s w w' i e = cc
  get'-set' (ok tt) h j s w w' i e =
      rw
        (
          get'_lem j w',
          get'_lem j w,
          chain.get-set service (account_for_host h) (account_for_host j) _ w w' e,
          account-account h j,
        )
        (answer-if (h === j) s _)

  -- Over such a key chain the repository keeps the secrets of each host.
  pub keytar-IsLawful :
      (imported : Result (Unit {0}))
      → IsLawful (keytar_secrets_repository json_parse json_stringify keytar service imported)
  keytar-IsLawful imported = record {
    get_same = get'-same imported;
    get-set = λ h j s w w' e.
        let (i, e') = set'-ok imported h s w w' e in get'-set' imported h j s w w' i e';
    set_refused = set'-fail imported;
  }
