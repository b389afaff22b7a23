-- ===== src/Http/Settled.antt =====
-- apps/web/src/adapters/HttpExecutor.ts: a call ends once and leaves nothing behind.
use nginx_admin.Common.{
  ℕ, ◌≤◌, Bool, true, false, ◌&&◌, if◌then◌else◌, Option, none, some, List, [], ◌∷◌, ◌≡◌, refl,
  length, length-append, arith,
}
use nginx_admin.Secrets.{Value}
use nginx_admin.Effects.{Result, fail}
use nginx_admin.Http.{
  Phase, fetching, reading, over, Call, Event, abort, timeout, abort_error, responded, body, failed,
  aborted_error, result_of, settle, start, step, step_in, run,
}

abbrev pub is_over : Phase → Bool
is_over over = true
is_over fetching = false
is_over reading = false

-- A call that is over has ended once, with its timer cleared and its listener removed; another has
-- not ended. At most one request was sent.
pub record IsSound (c : Call) : Type 0 where
  pub ends : length c.outcomes ≡ (if is_over c.phase then 1 else 0)
  pub no_timer : (is_over c.phase && c.timer) ≡ false
  pub no_listener : (is_over c.phase && c.listening) ≡ false
  pub one_request : c.requests ≤ 1

settle-IsSound :
    (r : Result Value) (c : Call) → is_over c.phase ≡ false → IsSound c → IsSound (settle r c)
unfolding settle
settle-IsSound r c q s = record {
  ends = grind (arith, length-append);
  no_timer = refl;
  no_listener = refl;
  one_request = s.one_request;
}

step-IsSound :
    (p : Phase) (e : Event) (c : Call) → c.phase ≡ p → IsSound c → IsSound (step_in p e c)
step-IsSound over e c q s = s
step-IsSound fetching abort c q s = ground arith
step-IsSound fetching timeout c q s = ground arith
step-IsSound fetching abort_error c q s = ground (arith, settle-IsSound (fail aborted_error) c)
step-IsSound fetching (failed f) c q s = settle-IsSound (fail f) c (ground arith) s
step-IsSound fetching (responded true status) c q s = ground arith
step-IsSound fetching (responded false status) c q s = settle-IsSound _ c (ground arith) s
step-IsSound fetching (body r) c q s = s
step-IsSound reading abort c q s = ground arith
step-IsSound reading timeout c q s = ground arith
step-IsSound reading abort_error c q s = ground (arith, settle-IsSound (fail aborted_error) c)
step-IsSound reading (failed f) c q s = settle-IsSound (fail f) c (ground arith) s
step-IsSound reading (responded is_ok status) c q s = s
step-IsSound reading (body r) c q s = settle-IsSound (result_of r) c (ground arith) s

run_from-IsSound : (es : List Event) (c : Call) → IsSound c → IsSound (run c es)
unfolding run
run_from-IsSound [] c s = s
run_from-IsSound (e ∷ es) c s = run_from-IsSound es (step c e) (step-IsSound c.phase e c refl s)

start-IsSound : (signal : Option Bool) (timeout_ms : Option ℕ) → IsSound (start signal timeout_ms)
unfolding start
start-IsSound (some true) timeout_ms = ground arith
start-IsSound (some false) timeout_ms = ground arith
start-IsSound none timeout_ms = ground arith

-- In whatever order the signal, the timer and the request report: at most one request is sent, the
-- call ends at most once, and when it has ended its timer is cleared and its listener removed.
pub call-IsSound :
    (signal : Option Bool) (timeout_ms : Option ℕ) (es : List Event)
    → IsSound (run (start signal timeout_ms) es)
call-IsSound signal timeout_ms es =
    run_from-IsSound es (start signal timeout_ms) (start-IsSound signal timeout_ms)
