-- ===== src/Ssh/Manager/Sound.antt =====
-- The clients that an SSH connection manager holds.
use nginx_admin.Common.{
  ℕ, ◌≤◌, ◌≡◌, refl, true, false, Option, none, some, List, [], ◌∷◌, arith, if◌then◌else◌,
}
use nginx_admin.Effects.{fail}
use nginx_admin.Ssh.Manager.{
  shutting_down_error, unused, pending, resolved, Manager, initial, Signal, absent, live, aborted,
  get_client, reuse, join_attempt, connect, on_ready, invalidate, on_error, on_abort, on_settled,
  shutdown, shutdown_complete, Event, client_requested, client_ready, client_error, client_closed,
  connect_aborted, connect_settled, shutdown_called, shutdown_waited, step, run,
}

-- What holds of the client with number `j`: the active client is ready, has not failed and was not
-- ended; an attempt that is pending is the one that callers wait for, and then no client is
-- active; a ready client that has not failed and was not ended is the active one.
pub record IsSound (m : Manager) (j : ℕ) : Type 0 where
  pub active_ready : m.active_client ≡ some j → (m.clients j).attempt ≡ resolved
  pub active_open : m.active_client ≡ some j → (m.clients j).ended ≡ false
  pub active_works : m.active_client ≡ some j → (m.clients j).broken ≡ false
  pub pending_shared : (m.clients j).attempt ≡ pending → m.connect_promise ≡ some j
  pub pending_alone : (m.clients j).attempt ≡ pending → m.active_client ≡ none
  pub pending_fresh :
      (m.clients j).attempt ≡ pending
      → ((m.clients j).ended ≡ false) × ((m.clients j).broken ≡ false)
  pub no_leak :
      (m.clients j).attempt ≡ resolved
      → (m.clients j).ended ≡ false
      → (m.clients j).broken ≡ false
      → m.active_client ≡ some j
  pub unborn : m.created ≤ j → (m.clients j).attempt ≡ unused

initial-IsSound : (j : ℕ) → IsSound initial j
initial-IsSound j = ground arith

-- The facts about `j` after an event for `i` need those about both before it.
on_ready-IsSound : (m : Manager) (i j : ℕ) → IsSound m i → IsSound m j → IsSound (on_ready i m) j
unfolding on_ready
on_ready-IsSound m i j hi hj = ground arith

invalidate-IsSound :
    (m : Manager) (i j : ℕ) → IsSound m i → IsSound m j → IsSound (invalidate i m) j
unfolding invalidate
invalidate-IsSound m i j hi hj = ground arith

on_error-IsSound : (m : Manager) (i j : ℕ) → IsSound m i → IsSound m j → IsSound (on_error i m) j
unfolding on_error
on_error-IsSound m i j hi hj = ground arith

on_abort-IsSound : (m : Manager) (i j : ℕ) → IsSound m i → IsSound m j → IsSound (on_abort i m) j
unfolding on_abort
on_abort-IsSound m i j hi hj = ground arith

connect-IsSound :
    (signal : Signal) (m : Manager) (j : ℕ)
    → IsSound m j
    → m.active_client ≡ none
    → m.connect_promise ≡ none
    → IsSound (connect signal m) j
unfolding connect
connect-IsSound absent m j h a p = ground arith
connect-IsSound live m j h a p = ground arith
connect-IsSound aborted m j h a p = ground arith

join_attempt-IsSound :
    (signal : Signal) (o : Option ℕ) (m : Manager) (j : ℕ)
    → IsSound m j
    → m.active_client ≡ none
    → m.connect_promise ≡ o
    → IsSound (join_attempt signal o m).1 j
unfolding join_attempt
join_attempt-IsSound signal none m j h a p = connect-IsSound signal m j h a p
join_attempt-IsSound signal (some i) m j h a p = h

reuse-IsSound :
    (signal : Signal) (o : Option ℕ) (m : Manager) (j : ℕ)
    → IsSound m j
    → m.active_client ≡ o
    → IsSound (reuse signal o m).1 j
unfolding reuse
reuse-IsSound signal none m j h a = join_attempt-IsSound signal m.connect_promise m j h a refl
reuse-IsSound signal (some i) m j h a = h

get_client-IsSound :
    (signal : Signal) (m : Manager) (j : ℕ) → IsSound m j → IsSound (get_client signal m).1 j
unfolding get_client
get_client-IsSound signal m j h =
    elim m.shutting_down
      as (λ b.
        IsSound (if b then (fail shutting_down_error, m) else reuse signal m.active_client m).1 j) [
          | true ↦ h
          | false ↦ reuse-IsSound signal m.active_client m j h refl
        ]

on_settled-IsSound : (m : Manager) (j : ℕ) → IsSound m j → IsSound (on_settled m) j
unfolding on_settled
on_settled-IsSound m j h = ground arith

shutdown-IsSound : (m : Manager) (j : ℕ) → IsSound m j → IsSound (shutdown m) j
unfolding shutdown
shutdown-IsSound m j h = ground arith

shutdown_complete-IsSound : (m : Manager) (j : ℕ) → IsSound m j → IsSound (shutdown_complete m) j
unfolding shutdown_complete
shutdown_complete-IsSound m j h = ground arith

step-IsSound : (m : Manager) (e : Event) → ((j : ℕ) → IsSound m j) → (j : ℕ) → IsSound (step m e) j
unfolding step
step-IsSound m (client_requested signal) h j = get_client-IsSound signal m j (h j)
step-IsSound m (client_ready i) h j = on_ready-IsSound m i j (h i) (h j)
step-IsSound m (client_error i) h j = on_error-IsSound m i j (h i) (h j)
step-IsSound m (client_closed i) h j = invalidate-IsSound m i j (h i) (h j)
step-IsSound m (connect_aborted i) h j = on_abort-IsSound m i j (h i) (h j)
step-IsSound m connect_settled h j = on_settled-IsSound m j (h j)
step-IsSound m shutdown_called h j = shutdown-IsSound m j (h j)
step-IsSound m shutdown_waited h j = shutdown_complete-IsSound m j (h j)

run-IsSound :
    (m : Manager) (es : List Event) → ((j : ℕ) → IsSound m j) → (j : ℕ) → IsSound (run m es) j
unfolding run
run-IsSound m [] h = h
run-IsSound m (e ∷ es) h = run-IsSound (step m e) es (step-IsSound m e h)

-- After any sequence of calls and events, of every client number: the active client is connected,
-- has not failed and was not ended; an attempt that is pending is the one that callers share, and
-- no client is active beside it; a connected client that neither failed nor was ended is the active
-- one.
pub run-initial-IsSound : (es : List Event) (j : ℕ) → IsSound (run initial es) j
run-initial-IsSound es j = run-IsSound initial es initial-IsSound j
