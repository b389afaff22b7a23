-- ===== src/Examples/Ssh.antt =====
-- Examples on the SSH executor and its connections.
use nginx_admin.Common.{
  ℕ, ◌+◌, ◌≡◌, refl, arith, true, false, Option, none, some, List, [], ◌∷◌, ◌++◌, Text, text,
}
use nginx_admin.Secrets.{Value}
use nginx_admin.Effects.{Failure, remote_error, Action, Result, ok, fail}
use nginx_admin.Ssh.Retry.{
  RetryOptions, is_connect_failure, exec_with_retry, no_attempt, connect_failed_code,
}
use nginx_admin.Ssh.Retry.Loop.{while_attempts, while_attempts-exec_with_retry}
use nginx_admin.Ssh.Retry.Backoff.{answer, wait, refused, backoff, exec_with_retry-backoff}
use nginx_admin.Ssh.Channel
use nginx_admin.Ssh.Channel.Settled.{start-run-IsSound, run-after_settled, run-timeout-settled}
use nginx_admin.Ssh.Channel.Settled
use nginx_admin.Ssh.Channel.Output.{Chunk, out, err, events_of, Exit, run-command}
use nginx_admin.Ssh.Manager
use nginx_admin.Ssh.Manager.Sound.{run-initial-IsSound}
use nginx_admin.Ssh.Manager.Sound

abbrev options : RetryOptions
options = record { max_retries = 3; retry_base_delay_ms = 250 }

abbrev denied : Failure
denied = remote_error (text "permission denied") (text "SSH_NON_ZERO")

abbrev idle : ℕ → Action ℕ (Unit {0})
idle ms n = (ok tt, n)

-- The state counts the runs; the connection fails at each.
abbrev unreachable : Action ℕ Text
unreachable n = (fail (remote_error (text "connect ECONNREFUSED") connect_failed_code), n + 1)

while_attempts-exec_with_retry_example :
    while_attempts options unreachable idle 5 0 no_attempt 0
    ≡ some (exec_with_retry options unreachable idle 0)
while_attempts-exec_with_retry_example =
    while_attempts-exec_with_retry options unreachable idle 5 0 (omega arith)

denied_other : is_connect_failure denied ≡ false
unfolding is_connect_failure
denied_other = refl

exec_with_retry-backoff_example :
    exec_with_retry options answer wait
      (record { answers = refused 2 (text "refused") (ok (text "[]") ∷ []); waits = [] })
    ≡ (ok (text "[]"), record { answers = []; waits = backoff 250 0 2 })
exec_with_retry-backoff_example =
    exec_with_retry-backoff options (text "refused") 2 (ok (text "[]")) [] (omega arith) refl

backoff_delays : backoff 250 0 3 ≡ 250 ∷ 500 ∷ 1000 ∷ []
backoff_delays = refl

-- ASCII, in the place of the decoder.
abbrev decode : Channel.Buffer → Text
decode bytes = bytes

abbrev no_json : Text → Option Value
no_json s = none

start-run-IsSound_example : Settled.IsSound (
    Channel.run no_json decode
      (Channel.start false)
      (Channel.exec_opened ∷ Channel.timeout ∷ Channel.abort ∷ []))
start-run-IsSound_example =
    start-run-IsSound no_json decode false
      (Channel.exec_opened ∷ Channel.timeout ∷ Channel.abort ∷ [])

abbrev cut_off : Channel.Channel
cut_off = Channel.run no_json decode (Channel.start false) (Channel.timeout ∷ [])

cut_off_settled : cut_off.settled ≡ true
unfolding Channel.run Channel.start
cut_off_settled = refl

late_stream :
    ((Channel.run no_json decode cut_off (Channel.exec_opened ∷ [])).has_stream ≡ true)
    × ((Channel.run no_json decode cut_off (Channel.exec_opened ∷ [])).closes ≡ 0)
unfolding Channel.run Channel.start
late_stream = (refl, refl)

run-timeout-settled_example :
    (Channel.run no_json decode
      (Channel.step no_json decode
        (Channel.run no_json decode (Channel.start false) (Channel.exec_opened ∷ []))
        Channel.timeout)
      (Channel.close 0 ∷ [])).settled
    ≡ true
run-timeout-settled_example =
    run-timeout-settled no_json decode false (Channel.exec_opened ∷ []) (Channel.close 0 ∷ [])

abbrev chunks : List Chunk
chunks = out (text "[]") ∷ err (text "warn") ∷ err (text "ing") ∷ []

run-command_example :
    (r : Result Text) × ((Channel.run no_json decode
        (Channel.start false)
        (Channel.exec_opened ∷ events_of chunks ++ Channel.close 2 ∷ [])).outcomes
      ≡ r ∷ [])
    × Exit no_json 2 (text "[]") (text "warning") r
run-command_example = run-command no_json decode chunks 2

abbrev connected : List Manager.Event
connected =
    Manager.client_requested Manager.absent ∷ Manager.client_ready 0 ∷ Manager.connect_settled ∷ []

run-initial-IsSound_example : Sound.IsSound (Manager.run Manager.initial connected) 0
run-initial-IsSound_example = run-initial-IsSound connected 0
