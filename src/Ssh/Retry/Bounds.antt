-- ===== src/Ssh/Retry/Bounds.antt =====
-- How often `execWithRetry` runs the command, and where its errors come from.
use nginx_admin.Common.{
  ℕ, zero, suc, ◌+◌, ◌≤◌, ◌≡◌, refl, ap, subst, Bool, true, false, Text, arith, add-one,
}
use nginx_admin.Effects.{Failure, Action, Result, ok, fail}
use nginx_admin.Ssh.Retry.{
  is_connect_failure, should_retry, RetryOptions, after_delay, after_execute, retry_loop,
  exec_with_retry, no_attempt, delay_after,
}

module _ {S : Type 0} (Q : Result Text × S → Type 0) where
  after_delay_ind :
      (x : Result (Unit {0}) × S) (again : S → Result Text × S)
      → ((s : S) → x.1 ≡ s → Q (again s))
      → ((e : Failure) (s : S) → x ≡ (fail e, s) → Q (fail e, s))
      → Q (after_delay x again)
  after_delay_ind (ok _, s) again h k = h s refl
  after_delay_ind (fail e, s) again h k = k e s refl

  after_execute_ind :
      (x : Result Text × S) (retry : Failure → Bool) (again : Failure → S → Result Text × S)
      → ((r : Result Text) (s : S) → x ≡ (r, s) → Q (r, s))
      → ((e : Failure) (s : S) → x ≡ (fail e, s) → Q (again e s))
      → Q (after_execute x retry again)
  after_execute_ind (ok o, s) retry again h k = h (ok o) s refl
  after_execute_ind (fail e, s) retry again h k =
      elim (retry e) as (λ b. Q (elim b [ true ↦ again e s | false ↦ (fail e, s) ])) [
        | true ↦ k e s refl
        | false ↦ h (fail e) s refl
      ]

module _ {S : Type 0} (options : RetryOptions) (execute : Action S Text)
    (delay : ℕ → Action S (Unit {0})) where
  module _ (runs : S → ℕ) (once : (s : S) → runs (execute s).1 ≤ runs s + 1)
      (idle : (ms : ℕ) (s : S) → runs (delay ms s).1 ≤ runs s) where
    retry_loop-le :
        (left attempt : ℕ) (e : Failure) (s : S)
        → runs (retry_loop options execute delay left attempt e s).1 ≤ runs s + left
    unfolding retry_loop
    retry_loop-le zero attempt e s = omega arith
    retry_loop-le (suc left) attempt e s =
        after_execute_ind (λ y. runs y.1 ≤ runs s + suc left) (execute s) _ _
          (λ r s' eq. let h = ap (λ y. runs y.1) eq in omega (arith, once s))
          (λ f s' eq.
            after_delay_ind (λ y. runs y.1 ≤ runs s + suc left)
              (delay (delay_after options execute delay (suc attempt)) s') _
              (λ s'' eq'.
                let h = ap (λ y. runs y.1) eq in
                let h' = ap runs eq' in
                omega (
                  arith,
                  once s,
                  idle (delay_after options execute delay (suc attempt)) s',
                  retry_loop-le left (suc attempt) f s'',
                ))
              (λ a s'' eq'.
                let h = ap (λ y. runs y.1) eq in
                let h' = ap (λ y. runs y.1) eq' in
                omega (arith, once s, idle (delay_after options execute delay (suc attempt)) s')))

    -- The command runs at most `maxRetries + 1` times.
    exec_with_retry-runs_le :
        (s : S)
        → runs (exec_with_retry options execute delay s).1 ≤ runs s + (options.max_retries + 1)
    unfolding exec_with_retry
    exec_with_retry-runs_le s = retry_loop-le (options.max_retries + 1) 0 no_attempt s

  module _ (P : Result Text → Type 0) (runs : (s : S) → P (execute s).0)
      (waits : (ms : ℕ) (s : S) (e : Failure) → (delay ms s).0 ≡ fail e → P (fail e)) where
    -- One round, given the rounds after it.
    round-from :
        (left attempt : ℕ) (e : Failure) (s : S)
        → ((f : Failure) (s' : S)
            → P (fail f)
            → P (retry_loop options execute delay left (suc attempt) f s').0)
        → P (retry_loop options execute delay (suc left) attempt e s).0
    unfolding retry_loop
    round-from left attempt e s later =
        after_execute_ind (λ y. P y.0) (execute s) _ _ (λ r s' eq. subst (λ y. P y.0) eq (runs s))
          (λ f s' eq.
            after_delay_ind (λ y. P y.0)
              (delay (delay_after options execute delay (suc attempt)) s') _
              (λ s'' eq'. later f s'' (subst (λ y. P y.0) eq (runs s)))
              (λ a s'' eq'. waits _ s' a (ap (λ y. y.0) eq')))

    retry_loop-from :
        (left attempt : ℕ) (e : Failure) (s : S)
        → P (fail e)
        → P (retry_loop options execute delay left attempt e s).0
    unfolding retry_loop
    retry_loop-from zero attempt e s h = h
    retry_loop-from (suc left) attempt e s h =
        round-from left attempt e s (λ f s'. retry_loop-from left (suc attempt) f s')

    -- What it returns or throws was returned or thrown by a run of the command, or thrown by an
    -- aborted delay: the error "SSH execution failed" behind the loop is never reached.
    pub exec_with_retry-from : (s : S) → P (exec_with_retry options execute delay s).0
    unfolding exec_with_retry
    exec_with_retry-from s = rw add-one (
        round-from options.max_retries 0 no_attempt s
          (λ f s'. retry_loop-from options.max_retries 1 f s'))

  -- A failure other than that of the connection is passed on after one run, with no delay.
  pub exec_with_retry-other_failure :
      (s s' : S) (e : Failure)
      → execute s ≡ (fail e, s')
      → is_connect_failure e ≡ false
      → exec_with_retry options execute delay s ≡ (fail e, s')
  unfolding exec_with_retry retry_loop should_retry
  exec_with_retry-other_failure s s' e run other = rw add-one (rw run (ground (arith)))
