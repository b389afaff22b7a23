-- ===== src/Desktop/Faults.antt =====
-- apps/desktop/src/main/secrets/SecretsRepository.ts: `SecretsRepositoryError`, and operations that
-- return or throw.
use nginx_admin.Common.{Text, ◌≡◌, refl}

pub data Code : Type 0 where
  keytar_unavailable corrupted_credentials invalid_secret_format access_denied : Code
  credential_manager_unavailable migration_failed : Code

-- What is thrown: an error of the repository with its message and code, or anything else, by
-- `error.message`, or by `String(error)` for a value that is no `Error`.
pub data Fault : Type 0 where
  secrets_error : Text → Code → Fault
  other_error : Text → Fault

pub data Result {ℓ} (A : Type ℓ) : Type ℓ where
  ok : A → Result A
  fail : Fault → Result A

-- A computation that throws or returns, without a state.
module _ {ℓ κ} {A : Type ℓ} {B : Type κ} where
  abbrev pub then_try : Result A → (A → Result B) → Result B
  then_try (ok a) k = k a
  then_try (fail f) k = fail f

-- An operation on a state that may throw; the state outlives the exception.
abbrev pub Action : Type 0 → Type 0 → Type 0
Action S A = S → Result A × S

module _ {S A : Type 0} where
  abbrev pub pure : A → Action S A
  pure a s = (ok a, s)

  abbrev pub throw : Fault → Action S A
  throw f s = (fail f, s)

  -- `try { … } catch (error) { throw f(error); }`
  abbrev pub rethrow : (Fault → Fault) → Result A × S → Result A × S
  rethrow f (ok a, s) = (ok a, s)
  rethrow f (fail e, s) = (fail (f e), s)

  abbrev pub lift : Result A → Action S A
  lift r s = (r, s)

module _ {S A B : Type 0} where
  abbrev pub and_then : Result A → (A → Action S B) → Action S B
  and_then (ok a) k = k a
  and_then (fail f) k = throw f

  pub and_then-eq-ok :
      (k : A → Action S B) (p : Result A × S) {q : Result A × S}
      → q ≡ p
      → (u : S) (b : B) → and_then p.0 k p.1 ≡ (ok b, u)
      → (a : A) × (t : S) × (q ≡ (ok a, t)) × (k a t ≡ (ok b, u))
  and_then-eq-ok k (ok a, t) e u b h = (a, t, e, h)
  and_then-eq-ok k (fail f, t) e u b h = cc

  infixl 5 ◌>>=◌ ◌>>◌
  abbrev pub ◌>>=◌ : Action S A → (A → Action S B) → Action S B
  m >>= k = λ s. let (r, s') = m s in and_then r k s'

  abbrev pub ◌>>◌ : Action S A → Action S B → Action S B
  m >> n = m >>= λ _. n

  -- An operation that returns has passed through all its steps.
  pub >>=-eq-ok :
      (m : Action S A) (k : A → Action S B) (s u : S) (b : B)
      → (m >>= k) s ≡ (ok b, u)
      → (a : A) × (t : S) × (m s ≡ (ok a, t)) × (k a t ≡ (ok b, u))
  >>=-eq-ok m k s u b h = and_then-eq-ok k (m s) refl u b h

-- How `rethrow` ends.
abbrev pub rethrown : {A : Type 0} → (Fault → Fault) → Result A → Result A
rethrown f (ok a) = ok a
rethrown f (fail e) = fail (f e)

module _ {S A : Type 0} (f : Fault → Fault) where
  pub rethrow_lem : (r : Result A) (s : S) → rethrow f (r, s) ≡ (rethrown f r, s)
  rethrow_lem (ok a) s = refl
  rethrow_lem (fail e) s = refl

  pub rethrow-eq-ok : (p : Result A × S) (a : A) (s : S) → rethrow f p ≡ (ok a, s) → p ≡ (ok a, s)
  rethrow-eq-ok (ok b, t) a s h = cc
  rethrow-eq-ok (fail e, t) a s h = cc

  pub rethrow-eq-fail :
      (p : Result A × S) (e : Fault) (s : S)
      → rethrow f p ≡ (fail e, s)
      → (g : Fault) × (p ≡ (fail g, s))
  rethrow-eq-fail (ok b, t) e s h = cc
  rethrow-eq-fail (fail g, t) e s h = (g, cc)
