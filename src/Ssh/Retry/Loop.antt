-- ===== src/Ssh/Retry/Loop.antt =====
-- apps/desktop/src/main/ssh/SSHExecutor.ts: the `while` loop of `execWithRetry` as it is written,
-- on a number of rounds that may run out.
use nginx_admin.Common.{
  ℕ, zero, suc, ◌+◌, ◌<◌, ◌≡◌, refl, Bool, true, false, Option, none, some, Text, ltb, arith,
  if◌then◌else◌,
}
use nginx_admin.Effects.{Failure, Action, Result, ok, fail}
use nginx_admin.Ssh.Retry.{
  should_retry, RetryOptions, after_delay, after_execute, total_attempts, delay_after, retry_loop,
  exec_with_retry, no_attempt,
}

-- What follows a delay and a run of the command, in a loop that may not come to its end.
module _ {S : Type 0} where
  abbrev pub delay_then :
      Result (Unit {0}) × S → (S → Option (Result Text × S)) → Option (Result Text × S)
  delay_then (ok _, s) again = again s
  delay_then (fail aborted, s) again = some (fail aborted, s)

  abbrev pub execute_then :
      Result Text × S
      → (Failure → Bool)
      → (Failure → S → Option (Result Text × S))
      → Option (Result Text × S)
  execute_then (ok output, s) retry again = some (ok output, s)
  execute_then (fail e, s) retry again = elim (retry e) [
    | true ↦ again e s
    | false ↦ some (fail e, s)
  ]

  delay_then-some :
      (x : Result (Unit {0}) × S) (again : S → Option (Result Text × S))
      (after : S → Result Text × S)
      → ((s : S) → again s ≡ some (after s))
      → delay_then x again ≡ some (after_delay x after)
  delay_then-some (ok u, s) again after h = h s
  delay_then-some (fail aborted, s) again after h = refl

  execute_then-some :
      (x : Result Text × S) (retry : Failure → Bool)
      (again : Failure → S → Option (Result Text × S)) (after : Failure → S → Result Text × S)
      → ((e : Failure) (s : S) → again e s ≡ some (after e s))
      → execute_then x retry again ≡ some (after_execute x retry after)
  execute_then-some (ok output, s) retry again after h = refl
  execute_then-some (fail e, s) retry again after h =
      elim (retry e)
        as (λ b.
          Path (Option (Result Text × S)) (elim b [ true ↦ again e s | false ↦ some (fail e, s) ])
            (some (elim b [ true ↦ after e s | false ↦ (fail e, s) ]))) [
              | true ↦ h e s
              | false ↦ refl
            ]

module _ {S : Type 0} (options : RetryOptions) (execute : Action S Text)
    (delay : ℕ → Action S (Unit {0})) where
  -- `while (attempt < totalAttempts) { attempt += 1; … }`
  unfoldable pub while_attempts : ℕ → ℕ → Failure → S → Option (Result Text × S)
  unfolding should_retry
  while_attempts zero attempt last_error s = none
  while_attempts (suc rounds) attempt last_error s =
      let round =
        execute_then (execute s)
          (λ e. should_retry e (suc attempt) (total_attempts options execute delay))
          (λ e s'.
            delay_then (delay (delay_after options execute delay (suc attempt)) s')
              (while_attempts rounds (suc attempt) e)) in
      if ltb attempt (total_attempts options execute delay)
      then round
      else some (fail last_error, s)

  while_attempts-some :
      (left rounds attempt : ℕ) (e : Failure) (s : S)
      → left < rounds
      → attempt + left ≡ options.max_retries + 1
      → while_attempts rounds attempt e s ≡ some (retry_loop options execute delay left attempt e s)
  unfolding while_attempts retry_loop
  while_attempts-some left zero attempt e s l h = absurd (omega arith)
  while_attempts-some zero (suc rounds) attempt e s l h =
      let over : ltb attempt (options.max_retries + 1) ≡ false = ground arith in rw over refl
  while_attempts-some (suc left) (suc rounds) attempt e s l h =
      let goes : ltb attempt (options.max_retries + 1) ≡ true = ground arith in
      rw goes (
        execute_then-some (execute s) _ _ _ (λ f s'.
          delay_then-some (delay (delay_after options execute delay (suc attempt)) s') _ _ (λ s''.
            while_attempts-some left rounds (suc attempt) f s'' (omega arith) (omega arith))))

  -- The loop comes to its end, whatever the command and the delays do: to test its condition
  -- `maxRetries + 2` times is enough, and more rounds change nothing. It then gives what the
  -- recursion on the attempts that are left gives.
  pub while_attempts-exec_with_retry :
      (rounds : ℕ) (s : S)
      → options.max_retries + 1 < rounds
      → while_attempts rounds 0 no_attempt s ≡ some (exec_with_retry options execute delay s)
  unfolding exec_with_retry
  while_attempts-exec_with_retry rounds s h =
      while_attempts-some (options.max_retries + 1) rounds 0 no_attempt s h (omega arith)
