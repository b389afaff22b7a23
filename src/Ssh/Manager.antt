-- ===== src/Ssh/Manager.antt =====
-- apps/desktop/src/main/ssh/SSHConnectionManager.ts
pub mod Sound
pub mod Shutdown
use nginx_admin.Common.{
  ℕ, suc, ◌+◌, ◌-◌, Bool, true, false, Option, none, some, List, [], ◌∷◌, text, ◌==◌, ◌&&◌,
  if◌then◌else◌,
}
use nginx_admin.Effects.{Failure, remote_error, Result, ok, fail}

-- Where the promise of `connect` for a client stands: not called, pending, resolved or rejected.
pub data Attempt : Type 0 where
  unused pending resolved rejected : Attempt

-- A client of the package ssh2: its attempt, whether `end` was called, and whether it has emitted
-- `error` or `close` since it was ready.
pub record Client : Type 0 where
  pub attempt : Attempt
  pub ended : Bool
  pub broken : Bool

-- The fields of the class, the clients it has created, by number, and how many calls of
-- `shutdown` wait for a client to close.
pub record Manager : Type 0 where
  pub active_client : Option ℕ
  pub connect_promise : Option ℕ
  pub shutting_down : Bool
  pub clients : ℕ → Client
  pub created : ℕ
  pub waiting_shutdowns : ℕ

abbrev pub initial : Manager
initial = record {
  active_client = none;
  connect_promise = none;
  shutting_down = false;
  clients = λ i. record { attempt = unused; ended = false; broken = false };
  created = 0;
  waiting_shutdowns = 0;
}

abbrev pub update : ℕ → Client → (ℕ → Client) → ℕ → Client
update i c f j = if i == j then c else f j

abbrev pub is_pending : Attempt → Bool
is_pending pending = true
is_pending _ = false

abbrev pub is_resolved : Attempt → Bool
is_resolved resolved = true
is_resolved _ = false

pub data Signal : Type 0 where
  absent live aborted : Signal

-- What `getClient` hands out: a client, or the promise of the attempt for one.
pub data Handle : Type 0 where
  client waiting : ℕ → Handle

abbrev pub aborted_error : Failure
aborted_error = remote_error (text "Operation aborted") (text "ABORTED")

abbrev pub shutting_down_error : Failure
shutting_down_error =
    remote_error (text "SSH connection manager is shutting down") (text "SSH_SHUTTING_DOWN")

abbrev pub is_aborted : Signal → Bool
is_aborted aborted = true
is_aborted _ = false

-- A new client; with an aborted signal it is ended and the promise is rejected at once.
unfoldable pub connect : Signal → Manager → Manager
connect signal m = record m {
  connect_promise = some m.created;
  created = m.created + 1;
  clients =
      update m.created
        (record {
          attempt = if is_aborted signal then rejected else pending;
          ended = is_aborted signal;
          broken = false;
        })
        m.clients;
}

abbrev pub with_abort : Signal → ℕ → Result Handle
with_abort aborted i = fail aborted_error
with_abort _ i = ok (waiting i)

-- The promise that is waited for.
unfoldable pub join_attempt : Signal → Option ℕ → Manager → Result Handle × Manager
unfolding connect
join_attempt signal none m = (with_abort signal m.created, connect signal m)
join_attempt signal (some i) m = (with_abort signal i, m)

unfoldable pub reuse : Signal → Option ℕ → Manager → Result Handle × Manager
unfolding join_attempt
reuse signal (some c) m = (ok (client c), m)
reuse signal none m = join_attempt signal m.connect_promise m

unfoldable pub get_client : Signal → Manager → Result Handle × Manager
unfolding reuse
get_client signal m =
    if m.shutting_down then (fail shutting_down_error, m) else reuse signal m.active_client m

-- `if (this.activeClient === client) this.activeClient = null`
abbrev pub without : ℕ → Option ℕ → Option ℕ
without i none = none
without i (some j) = if i == j then none else some j

-- `onReady`
unfoldable pub on_ready : ℕ → Manager → Manager
on_ready i m =
    if is_pending (m.clients i).attempt
    then record m {
      active_client = some i;
      clients = update i (record (m.clients i) { attempt = resolved }) m.clients;
    }
    else m

-- The listener of a client that was ready, for `error` and `close`.
unfoldable pub invalidate : ℕ → Manager → Manager
invalidate i m =
    if is_resolved (m.clients i).attempt
    then record m {
      active_client = without i m.active_client;
      clients = update i (record (m.clients i) { broken = true }) m.clients;
    }
    else m

-- `onError` before the client is ready; afterwards the listener that `onReady` registers.
unfoldable pub on_error : ℕ → Manager → Manager
unfolding invalidate
on_error i m =
    if is_pending (m.clients i).attempt
    then record m { clients = update i (record (m.clients i) { attempt = rejected }) m.clients }
    else invalidate i m

-- `onAbort` of `connect`
unfoldable pub on_abort : ℕ → Manager → Manager
on_abort i m =
    if is_pending (m.clients i).attempt
    then record m {
      clients = update i (record (m.clients i) { attempt = rejected; ended = true }) m.clients;
    }
    else m

-- The callback of `finally`, which runs once the promise of the attempt has settled.
unfoldable pub clear_promise : Option ℕ → Manager → Manager
clear_promise none m = m
clear_promise (some i) m =
    if is_pending (m.clients i).attempt then m else record m { connect_promise = none }

unfoldable pub on_settled : Manager → Manager
unfolding clear_promise
on_settled m = clear_promise m.connect_promise m

-- `shutdown` up to its first `await`, or to its return where no client is active.
unfoldable pub shutdown_client : Option ℕ → Manager → Manager
shutdown_client none m = record m { active_client = none; shutting_down = false }
shutdown_client (some i) m = record m {
  active_client = none;
  shutting_down = true;
  waiting_shutdowns = m.waiting_shutdowns + 1;
  clients = update i (record (m.clients i) { ended = true }) m.clients;
}

unfoldable pub shutdown : Manager → Manager
unfolding shutdown_client
shutdown m = shutdown_client m.active_client m

-- The rest of `shutdown`: the client has closed, or the second has passed.
unfoldable pub shutdown_complete : Manager → Manager
shutdown_complete m =
    if m.waiting_shutdowns == 0
    then m
    else record m { shutting_down = false; waiting_shutdowns = m.waiting_shutdowns - 1 }

-- What happens to a manager: calls of its methods, and what its clients and signals emit.
pub data Event : Type 0 where
  client_requested : Signal → Event
  client_ready client_error client_closed connect_aborted : ℕ → Event
  connect_settled shutdown_called shutdown_waited : Event

unfoldable pub step : Manager → Event → Manager
unfolding get_client on_ready on_error invalidate on_abort on_settled shutdown shutdown_complete
step m (client_requested signal) = (get_client signal m).1
step m (client_ready i) = on_ready i m
step m (client_error i) = on_error i m
step m (client_closed i) = invalidate i m
step m (connect_aborted i) = on_abort i m
step m connect_settled = on_settled m
step m shutdown_called = shutdown m
step m shutdown_waited = shutdown_complete m

unfoldable pub run : Manager → List Event → Manager
unfolding step
run m [] = m
run m (e ∷ es) = run (step m e) es
