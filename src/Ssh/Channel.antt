-- ===== src/Ssh/Channel.antt =====
-- apps/desktop/src/main/ssh/SSHExecutor.ts: `execOnClient` and `parseRemoteError`.
pub mod Settled
pub mod Output
use nginx_admin.Common.{
  ℕ, suc, ◌+◌, Bool, true, false, not, Option, none, some, List, [], ◌∷◌, ◌++◌, Text, text, ◌===◌,
  ◌==◌, ◌&&◌, if◌then◌else◌, truthy, starts_with, trim, decimal,
}
use nginx_admin.Secrets.{Value, str, obj, Fields, end, field, redact_potential_secrets}
use nginx_admin.Effects.{Failure, remote_error, Result, ok, fail}

-- The variables of the promise: whether `streamRef` is set, whether the callback of `exec` is
-- still to come, `settled`, whether the timer runs and the abort listener is registered, the two
-- outputs; how often the stream was closed, and the calls of `resolve` and `reject` in order.
pub record Channel : Type 0 where
  pub has_stream : Bool
  pub exec_pending : Bool
  pub settled : Bool
  pub timer : Bool
  pub listening : Bool
  pub stdout : Text
  pub stderr : Text
  pub closes : ℕ
  pub outcomes : List (Result Text)

-- The bytes of a chunk.
abbrev pub Buffer : Type 0
Buffer = List ℕ

-- What the signal, the timer, the client and the stream tell the promise. A process that a signal
-- has ended, and that so has no exit code, is not modelled.
pub data Event : Type 0 where
  abort timeout exec_opened : Event
  exec_failed : Text → Event
  out_chunk err_chunk : Buffer → Event
  close : ℕ → Event

abbrev pub aborted_error : Failure
aborted_error = remote_error (text "Operation aborted") (text "ABORTED")

abbrev pub timeout_error : Failure
timeout_error = remote_error (text "SSH command timed out") (text "SSH_TIMEOUT")

-- `rejectOnce` and `resolveOnce`, with `cleanup`.
unfoldable pub settle_once : Result Text → Channel → Channel
settle_once r c = if c.settled then c else record c {
  settled = true;
  timer = false;
  listening = false;
  outcomes = c.outcomes ++ r ∷ [];
}

unfoldable pub abort_stream : Channel → Channel
abort_stream c = if c.has_stream then record c { closes = c.closes + 1 } else c

unfoldable pub on_abort : Channel → Channel
unfolding settle_once abort_stream
on_abort c = settle_once (fail aborted_error) (abort_stream c)

unfoldable pub on_timeout : Channel → Channel
unfolding settle_once abort_stream
on_timeout c = settle_once (fail timeout_error) (abort_stream c)

abbrev untouched : Channel
untouched = record {
  has_stream = false;
  exec_pending = false;
  settled = false;
  timer = false;
  listening = false;
  stdout = [];
  stderr = [];
  closes = 0;
  outcomes = [];
}

-- The body of the promise, for a signal that is or is not yet aborted; without a signal no
-- `abort` comes.
unfoldable pub start : Bool → Channel
unfolding on_abort
start aborted =
    if aborted
    then on_abort untouched
    else record untouched { exec_pending = true; timer = true; listening = true }

-- A property that is a string.
unfoldable pub text_field : Text → Fields → Option Text
unfolding ◌===◌
text_field k end = none
text_field k (field j (str s) fs) = let rest = text_field k fs in if j === k then some s else rest
text_field k (field j _ fs) = let rest = text_field k fs in if j === k then none else rest

abbrev pub Parsed : Type 0
Parsed = Option (Text × Text)

abbrev pub both : Option Text → Option Text → Parsed
both (some message) (some code) = some (redact_potential_secrets message, code)
both _ _ = none

unfoldable pub error_fields : Option Value → Parsed
unfolding text_field
error_fields (some (obj fs)) = both (text_field (text "message") fs) (text_field (text "code") fs)
error_fields _ = none

-- `a || b` on strings.
abbrev pub or_text : Text → Text → Text
or_text a b = if truthy a then a else b

-- `json_parse` is `JSON.parse`, which throws on a text that is no JSON.
module _ (json_parse : Text → Option Value) where
  unfoldable pub parse_remote_error : Text → Parsed
  unfolding error_fields trim starts_with
  parse_remote_error stderr =
      let raw = trim stderr in
      if not (starts_with raw (text "{")) then none else error_fields (json_parse raw)

  abbrev pub exit_failure : ℕ → Text → Parsed → Failure
  exit_failure code stderr (some (message, remote_code)) = remote_error message remote_code
  exit_failure code stderr none =
      remote_error
        (or_text (redact_potential_secrets stderr) (text "SSH exited with code " ++ decimal code))
        (text "SSH_NON_ZERO")

  unfoldable pub on_close : ℕ → Channel → Channel
  unfolding settle_once parse_remote_error
  on_close code c =
      if not (code == 0)
      then settle_once (fail (exit_failure code c.stderr (parse_remote_error c.stderr))) c
      else settle_once (ok (trim c.stdout)) c

-- `decode` is `toString("utf8")` on the bytes of one chunk: a character that is split between two
-- chunks is not put together again.
module _ (json_parse : Text → Option Value) (decode : Buffer → Text) where
  -- A timer that was cleared does not fire, a listener that was removed is not called, and a
  -- stream speaks once it is open.
  unfoldable pub step : Channel → Event → Channel
  unfolding on_abort on_timeout on_close settle_once
  step c abort = if c.listening then on_abort (record c { listening = false }) else c
  step c timeout = if c.timer then on_timeout (record c { timer = false }) else c
  step c (exec_failed message) =
      if c.exec_pending
      then settle_once
          (fail (remote_error (redact_potential_secrets message) (text "SSH_EXEC_OPEN_FAILED")))
          (record c { exec_pending = false })
      else c
  step c exec_opened =
      if c.exec_pending
      then record c { exec_pending = false; has_stream = true; stdout = []; stderr = [] }
      else c
  step c (out_chunk chunk) =
      if c.has_stream then record c { stdout = c.stdout ++ decode chunk } else c
  step c (err_chunk chunk) =
      if c.has_stream then record c { stderr = c.stderr ++ decode chunk } else c
  step c (close code) = if c.has_stream then on_close json_parse code c else c

  unfoldable pub run : Channel → List Event → Channel
  unfolding step
  run c [] = c
  run c (e ∷ es) = run (step c e) es
