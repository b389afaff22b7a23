-- ===== src/Ssh/Retry.antt =====
-- apps/desktop/src/main/ssh/SSHExecutor.ts: `execWithRetry`, `shouldRetry`.
pub mod Bounds
pub mod Backoff
pub mod Loop
use nginx_admin.Common.{
  ℕ, zero, suc, ◌+◌, ◌-◌, ◌*◌, ◌^◌, Bool, true, false, not, ◌&&◌, Text, text, leb, if◌then◌else◌,
  ◌===◌,
}
use nginx_admin.Effects.{Failure, error, remote_error, thrown, Action, Result, ok, fail}

abbrev pub connect_failed_code : Text
connect_failed_code = text "SSH_CONNECT_FAILED"

-- `error instanceof RemoteExecutionError && error.code === CONNECT_FAILED_CODE`
unfoldable pub is_connect_failure : Failure → Bool
unfolding ◌===◌
is_connect_failure (remote_error message code) = code === connect_failed_code
is_connect_failure _ = false

unfoldable pub should_retry : Failure → ℕ → ℕ → Bool
unfolding is_connect_failure
should_retry e attempt total_attempts =
    if leb total_attempts attempt then false else is_connect_failure e

-- What the loop would throw if no attempt had failed with an `Error`.
abbrev pub no_attempt : Failure
no_attempt = remote_error (text "SSH execution failed") (text "SSH_EXEC_FAILED")

-- Settings of the executor, with their defaults 1 and 250.
pub record RetryOptions : Type 0 where
  pub max_retries : ℕ
  pub retry_base_delay_ms : ℕ

module _ {S : Type 0} where
  -- `await this.delay(…)` inside the `catch`: an aborted delay throws.
  abbrev pub after_delay : Result (Unit {0}) × S → (S → Result Text × S) → Result Text × S
  after_delay (ok _, s) again = again s
  after_delay (fail aborted, s) again = (fail aborted, s)

  -- The `return` of the `try` and the `catch`.
  abbrev pub after_execute :
      Result Text × S → (Failure → Bool) → (Failure → S → Result Text × S) → Result Text × S
  after_execute (ok output, s) retry again = (ok output, s)
  after_execute (fail e, s) retry again = elim (retry e) [ true ↦ again e s | false ↦ (fail e, s) ]

-- `execute` gets a client and runs the command on it; `delay` waits, and throws if it is aborted.
-- `left` bounds the rounds of the `while` loop: it is `totalAttempts - attempt`.
module _ {S : Type 0} (options : RetryOptions) (execute : Action S Text)
    (delay : ℕ → Action S (Unit {0})) where
  abbrev pub total_attempts : ℕ
  total_attempts = options.max_retries + 1

  abbrev pub delay_after : ℕ → ℕ
  delay_after attempt = options.retry_base_delay_ms * 2 ^ (attempt - 1)

  unfoldable pub retry_loop : ℕ → ℕ → Failure → Action S Text
  retry_loop zero attempt last_error s = (fail last_error, s)
  retry_loop (suc left) attempt last_error s =
      after_execute (execute s) (λ e. should_retry e (suc attempt) total_attempts)
        (λ e s'.
          after_delay (delay (delay_after (suc attempt)) s') (retry_loop left (suc attempt) e))

  unfoldable pub exec_with_retry : Action S Text
  unfolding retry_loop should_retry
  exec_with_retry = retry_loop total_attempts 0 no_attempt
