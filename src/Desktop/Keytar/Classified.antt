-- ===== src/Desktop/Keytar/Classified.antt =====
-- apps/desktop/src/main/secrets/KeytarSecretsRepository.ts: what its operations throw.
use nginx_admin.Common.{Option, Text}
use nginx_admin.Secrets.{Value}
use nginx_admin.Desktop.Faults.{Code, secrets_error, other_error, Result, ok, fail, rethrow}
use nginx_admin.Desktop.HostSecrets.{HostSecrets}
use nginx_admin.Desktop.HostSecrets.Normal.{normalize-value_of}
use nginx_admin.Desktop.Keytar.{KeytarLike, map_keytar_error, get, set, delete}

-- A call either returns or throws an error of the repository, with a code.
data IsCoded {A : Type 0} : Result A → Type 0 where
  returned : (a : A) → IsCoded (ok a)
  coded : (message : Text) (code : Code) → IsCoded (fail (secrets_error message code))

rethrow-IsCoded :
    {S A : Type 0} (fallback : Text) (p : Result A × S)
    → IsCoded (rethrow (map_keytar_error fallback) p).0
unfolding map_keytar_error
rethrow-IsCoded fallback (ok a, s) = returned a
rethrow-IsCoded fallback (fail (secrets_error message code), s) = coded message code
rethrow-IsCoded fallback (fail (other_error message), s) = coded _ _

-- Whatever the key chain, its package or the stored text do, a failure of the repository is an
-- error of its own with a code.
keytar-IsCoded :
    (json_parse : Text → Option Value) (json_stringify : Value → Text) (keytar : KeytarLike)
    (service : Text) (imported : Result (Unit {0})) (host : Text) (s : HostSecrets)
    (w : keytar.Chain)
    → IsCoded (get json_parse json_stringify keytar service imported host w).0
      × IsCoded (set json_parse json_stringify keytar service imported host s w).0
      × IsCoded (delete json_parse json_stringify keytar service imported host w).0
unfolding get set delete
keytar-IsCoded json_parse json_stringify keytar service imported host s w = (
  search (rethrow-IsCoded),
  rw (normalize-value_of s) (search (rethrow-IsCoded)),
  search (rethrow-IsCoded),
)
