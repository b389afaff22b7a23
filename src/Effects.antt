-- ===== src/Effects.antt =====
-- Errors and state: what an operation of the program returns, throws and changes.
use nginx_admin.Common.{Text}

-- What a promise is rejected with: an `Error`, a `RemoteExecutionError` of
-- packages/transport/src/RemoteExecutor.ts with its code, or a value that is no `Error`.
pub data Failure : Type 0 where
  error : Text → Failure
  remote_error : Text → Text → Failure
  thrown : Failure

pub data Result {ℓ} (A : Type ℓ) : Type ℓ where
  ok : A → Result A
  fail : Failure → Result A

-- `error instanceof Error ? error.message : fallback`
abbrev pub message_or : Text → Failure → Text
message_or fallback (error message) = message
message_or fallback (remote_error message code) = message
message_or fallback thrown = fallback

-- An operation on a state that may throw; the state outlives the exception.
abbrev pub Action : Type 0 → Type 0 → Type 0
Action S A = S → Result A × S

module _ {S A : Type 0} where
  abbrev pub pure : A → Action S A
  pure a s = (ok a, s)

  abbrev pub throw : Failure → Action S A
  throw f s = (fail f, s)

module _ {S A B : Type 0} where
  abbrev pub and_then : Result A → (A → Action S B) → Action S B
  and_then (ok a) k = k a
  and_then (fail f) k = throw f

  infixl 5 ◌>>=◌ ◌>>◌
  abbrev pub ◌>>=◌ : Action S A → (A → Action S B) → Action S B
  m >>= k = λ s. let (r, s') = m s in and_then r k s'

  abbrev pub ◌>>◌ : Action S A → Action S B → Action S B
  m >> n = m >>= λ _. n
