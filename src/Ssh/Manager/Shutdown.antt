-- ===== src/Ssh/Manager/Shutdown.antt =====
-- How callers of `getClient` share a connection, and what `shutdown` leaves behind.
use nginx_admin.Common.{ℕ, ◌+◌, ◌≡◌, false, some, List, arith}
use nginx_admin.Effects.{ok, fail}
use nginx_admin.Ssh.Manager.{
  pending, Manager, initial, Signal, live, get_client, on_ready, shutdown, waiting, run, Event,
  shutting_down_error,
}
use nginx_admin.Ssh.Manager.Sound.{run-initial-IsSound}

-- Callers that come while an attempt is pending wait for it and start none: the manager is left as
-- it is.
pub get_client-pending :
    (es : List Event) (i : ℕ)
    → ((run initial es).clients i).attempt ≡ pending
    → (run initial es).shutting_down ≡ false
    → get_client live (run initial es) ≡ (ok (waiting i), run initial es)
unfolding get_client
get_client-pending es i p go =
    let s = run-initial-IsSound es i in
    let a = s.pending_alone p in let c = s.pending_shared p in ground arith

-- `shutdown` reaches no attempt that is pending: it returns at once and the manager takes
-- requests, and when the attempt succeeds its client becomes active, not ended.
shutdown-pending :
    (es : List Event) (i : ℕ)
    → ((run initial es).clients i).attempt ≡ pending
    → ((shutdown (run initial es)).shutting_down ≡ false)
      × ((on_ready i (shutdown (run initial es))).active_client ≡ some i)
      × (((on_ready i (shutdown (run initial es))).clients i).ended ≡ false)
unfolding shutdown on_ready
shutdown-pending es i p =
    let s = run-initial-IsSound es i in
    let a = s.pending_alone p in let e = s.pending_fresh p in ground arith

-- While a `shutdown` waits for its client to close, requests are refused; a second `shutdown` in
-- that time lifts the refusal.
shutdown-shutdown :
    (m : Manager) (i : ℕ) (signal : Signal)
    → m.active_client ≡ some i
    → (get_client signal (shutdown m) ≡ (fail shutting_down_error, shutdown m))
      × ((shutdown (shutdown m)).shutting_down ≡ false)
      × ((shutdown (shutdown m)).waiting_shutdowns ≡ m.waiting_shutdowns + 1)
unfolding shutdown get_client
shutdown-shutdown m i signal a = ground arith
