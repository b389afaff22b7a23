-- ===== src/Http.antt =====
-- apps/web/src/adapters/HttpExecutor.ts: `execute`, by what the signal, the timer and `fetch` tell
-- it.
pub mod Settled
use nginx_admin.Common.{
  ℕ, suc, ◌+◌, ltb, Bool, true, false, not, ◌&&◌, ◌||◌, Option, none, some, List, [], ◌∷◌, ◌++◌,
  Text, text, if◌then◌else◌, is_some, or_else, decimal,
}
use nginx_admin.Secrets.{Value, undefined, null, bool, num, str}
use nginx_admin.Effects.{Failure, remote_error, Result, ok, fail}

-- Whether a promise is waited for, and which; whether the controller has aborted, the timer runs
-- and the listener is registered; the requests that were sent, and the ends of the call in order.
pub data Phase : Type 0 where
  fetching reading over : Phase

pub record Call : Type 0 where
  pub phase : Phase
  pub aborted : Bool
  pub timer : Bool
  pub listening : Bool
  pub requests : ℕ
  pub outcomes : List (Result Value)

-- `HttpRemoteResult`; an absent `data` is undefined.
pub record HttpRemoteResult : Type 0 where
  pub is_ok : Bool
  pub content : Value
  pub message : Option Text
  pub code : Option Text

-- What the `await`s end with: a response with its status, the object in its body, the `AbortError`
-- that an aborted controller makes, or another failure.
pub data Event : Type 0 where
  abort timeout abort_error : Event
  responded : Bool → ℕ → Event
  body : HttpRemoteResult → Event
  failed : Failure → Event

abbrev pub aborted_error : Failure
aborted_error = remote_error (text "Operation aborted") (text "ABORTED")

-- Truthiness.
abbrev pub is_truthy : Value → Bool
is_truthy undefined = false
is_truthy null = false
is_truthy (bool b) = b
is_truthy (num n) = ltb 0 n
is_truthy (str []) = false
is_truthy (str (c ∷ s)) = true
is_truthy _ = true

unfoldable pub result_of : HttpRemoteResult → Result Value
result_of r =
    if not r.is_ok || not (is_truthy r.content)
    then fail (
        remote_error (or_else r.message (text "Remote API failed"))
          (or_else r.code (text "REMOTE_EXECUTION_FAILED")))
    else ok r.content

-- The end of the `try`, with its `finally`.
unfoldable pub settle : Result Value → Call → Call
settle r c = record c {
  phase = over;
  timer = false;
  listening = false;
  outcomes = c.outcomes ++ r ∷ [];
}

abbrev untouched : Call
untouched = record {
  phase = over;
  aborted = false;
  timer = false;
  listening = false;
  requests = 0;
  outcomes = [];
}

-- The call up to its first `await`, for a signal that is or is not there or aborted, and a timeout.
unfoldable pub start : Option Bool → Option ℕ → Call
start (some true) timeout_ms = record untouched { outcomes = fail aborted_error ∷ [] }
start signal timeout_ms = record untouched {
  phase = fetching;
  timer = ltb 0 (or_else timeout_ms 0);
  listening = is_some signal;
  requests = 1;
}

abbrev respond : Bool → ℕ → Call → Call
respond true status c = record c { phase = reading }
respond false status c =
    settle (fail (remote_error (text "HTTP " ++ decimal status) (text "HTTP_NON_OK"))) c

abbrev pub step_in : Phase → Event → Call → Call
step_in over e c = c
step_in phase abort c = if c.listening then record c { aborted = true; listening = false } else c
step_in phase timeout c = if c.timer then record c { aborted = true; timer = false } else c
step_in phase abort_error c = if c.aborted then settle (fail aborted_error) c else c
step_in phase (failed f) c = settle (fail f) c
step_in fetching (responded is_ok status) c = respond is_ok status c
step_in reading (body r) c = settle (result_of r) c
step_in phase e c = c

unfoldable pub step : Call → Event → Call
unfolding settle result_of
step c e = step_in c.phase e c

unfoldable pub run : Call → List Event → Call
unfolding step
run c [] = c
run c (e ∷ es) = run (step c e) es
