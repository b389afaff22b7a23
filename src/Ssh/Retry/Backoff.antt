-- ===== src/Ssh/Retry/Backoff.antt =====
-- The delays of `execWithRetry`, against a connection that fails a number of times.
use nginx_admin.Common.{
  ℕ, zero, suc, ◌+◌, ◌-◌, ◌*◌, ◌^◌, ◌≤◌, ◌≡◌, refl, ◌∙◌, Bool, true, false, ◌&&◌, List, [], ◌∷◌,
  ◌++◌, append_assoc, append-nil, Text, arith, ltb, add-one, ===_refl,
}
use nginx_admin.Effects.{Failure, remote_error, thrown, Action, Result, ok, fail}
use nginx_admin.Ssh.Retry.{
  connect_failed_code, is_connect_failure, should_retry, RetryOptions, after_execute, retry_loop,
  exec_with_retry, no_attempt,
}

-- What the coming runs of the command answer, and the delays so far.
pub record Script : Type 0 where
  pub answers : List (Result Text)
  pub waits : List ℕ

abbrev take_answer : List (Result Text) → List ℕ → Result Text × Script
take_answer [] ws = (fail thrown, record { answers = []; waits = ws })
take_answer (r ∷ rs) ws = (r, record { answers = rs; waits = ws })

abbrev pub answer : Action Script Text
answer s = take_answer s.answers s.waits

abbrev pub wait : ℕ → Action Script (Unit {0})
wait ms s = (ok tt, record s { waits = s.waits ++ ms ∷ [] })

abbrev pub refused : ℕ → Text → List (Result Text) → List (Result Text)
refused zero message rs = rs
refused (suc k) message rs = fail (remote_error message connect_failed_code) ∷ refused k message rs

-- `k` delays from the attempt on: base · 2ⁿ, base · 2ⁿ⁺¹, …
abbrev pub backoff : ℕ → ℕ → ℕ → List ℕ
backoff base attempt zero = []
backoff base attempt (suc k) = base * 2 ^ attempt ∷ backoff base (suc attempt) k

abbrev pub is_refusal : Result Text → Bool
is_refusal (ok output) = false
is_refusal (fail e) = is_connect_failure e

is_connect_failure-refusal :
    (message : Text) → is_connect_failure (remote_error message connect_failed_code) ≡ true
unfolding is_connect_failure
is_connect_failure-refusal message = ===_refl connect_failed_code

should_retry-eq-and :
    (f : Failure) (attempt left total : ℕ)
    → attempt + left ≡ total
    → should_retry f (suc attempt) (total + 1) ≡ (is_connect_failure f && ltb 0 left)
unfolding should_retry
should_retry-eq-and f attempt left total h = ground arith

should_retry-refusal :
    (message : Text) (attempt left total : ℕ)
    → attempt + suc left ≡ total
    → should_retry (remote_error message connect_failed_code) (suc attempt) (total + 1) ≡ true
should_retry-refusal message attempt left total h = ground (
  arith,
  should_retry-eq-and (remote_error message connect_failed_code) attempt (suc left) total h,
  is_connect_failure-refusal message,
)

module _ {S : Type 0} (options : RetryOptions) (execute : Action S Text)
    (delay : ℕ → Action S (Unit {0})) (left attempt : ℕ) (e f : Failure) (s s' : S)
    (failed : execute s ≡ (fail f, s')) where
  round_last :
      should_retry f (suc attempt) (options.max_retries + 1) ≡ false
      → retry_loop options execute delay (suc left) attempt e s ≡ (fail f, s')
  unfolding retry_loop
  round_last stop = rw (failed, after_execute, stop)

  round_again :
      (s'' : S)
      → should_retry f (suc attempt) (options.max_retries + 1) ≡ true
      → delay (options.retry_base_delay_ms * 2 ^ attempt) s' ≡ (ok tt, s'')
      → retry_loop options execute delay (suc left) attempt e s
        ≡ retry_loop options execute delay left (suc attempt) f s''
  unfolding retry_loop
  round_again s'' again waited =
      let pred : suc attempt - 1 ≡ attempt = omega arith in
      rw (failed, after_execute, again, pred, waited)

module _ (options : RetryOptions) (message : Text) where
  loop-backoff :
      (k left attempt : ℕ) (e : Failure) (r : Result Text) (rs : List (Result Text)) (ws : List ℕ)
      → attempt + left ≡ options.max_retries
      → k ≤ left
      → (is_refusal r && ltb k left) ≡ false
      → retry_loop options answer wait
          (suc left)
          attempt
          e
          (record { answers = refused k message (r ∷ rs); waits = ws })
        ≡ (r, record { answers = rs; waits = ws ++ backoff options.retry_base_delay_ms attempt k })
  unfolding retry_loop
  loop-backoff zero left attempt e (ok output) rs ws sum h final = rw (append-nil ws)
  loop-backoff zero left attempt e (fail f) rs ws sum h final = rw (append-nil ws) (
      round_last options answer wait left attempt e f (record { answers = fail f ∷ rs; waits = ws })
        (record { answers = rs; waits = ws }) refl
        (should_retry-eq-and f attempt left options.max_retries sum ∙ final))
  loop-backoff (suc k) zero attempt e r rs ws sum h final = absurd (omega arith)
  loop-backoff (suc k) (suc left) attempt e r rs ws sum h final =
      let refusal = remote_error message connect_failed_code in
      let ms = options.retry_base_delay_ms * 2 ^ attempt in
      let answers = refused k message (r ∷ rs) in
      round_again options answer wait (suc left) attempt e refusal
        (record { answers = fail refusal ∷ answers; waits = ws })
        (record { answers = answers; waits = ws }) refl
        (record { answers = answers; waits = ws ++ ms ∷ [] })
        (should_retry-refusal message attempt left options.max_retries sum) refl
      ∙ loop-backoff k left (suc attempt) refusal r rs (ws ++ ms ∷ []) (omega arith) (omega arith)
          (ground arith)
      ∙ rw (append_assoc ws (ms ∷ []) (backoff options.retry_base_delay_ms (suc attempt) k))

  -- The connection is refused `k ≤ maxRetries` times and then the command answers: with a result,
  -- another failure, or, at `k = maxRetries`, with anything. `execWithRetry` gives that answer,
  -- asks nothing more, and has waited base · 2⁰, …, base · 2ᵏ⁻¹ milliseconds, in this order.
  pub exec_with_retry-backoff :
      (k : ℕ) (r : Result Text) (rs : List (Result Text))
      → k ≤ options.max_retries
      → (is_refusal r && ltb k options.max_retries) ≡ false
      → exec_with_retry options answer wait
          (record { answers = refused k message (r ∷ rs); waits = [] })
        ≡ (r, record { answers = rs; waits = backoff options.retry_base_delay_ms 0 k })
  unfolding exec_with_retry
  exec_with_retry-backoff k r rs h final =
      rw add-one (loop-backoff k options.max_retries 0 no_attempt r rs [] (omega arith) h final)
