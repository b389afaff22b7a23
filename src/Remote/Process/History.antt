-- ===== src/Remote/Process/History.antt =====
-- Sequences of calls of `RoutesProcess`, each at its own time.
use nginx_admin.Common.{◌≡◌, true, List, [], ◌∷◌, All, subst, sym}
use nginx_admin.Secrets.{redact_potential_secrets}
use nginx_admin.Remote.Types.{Route}
use nginx_admin.Remote.Drafts.{Ambient, route_of_draft}
use nginx_admin.Remote.Fixed.{IsFixed}
use nginx_admin.Remote.Projection.{RoutesState}
use nginx_admin.Remote.Process.{load}
use nginx_admin.Remote.Process.Settled.{Call, load_call, save_call, toggle_call, perform}
use nginx_admin.Remote.Process.Mirror.{InStep, gateway_at, load-InStep, save-InStep, toggle-InStep}

abbrev pub Event : Type 0
Event = Ambient × Call

-- The texts of the event do not look like secrets, and a load asks for all routes.
abbrev pub IsPlain : Event → Type 0
IsPlain (env, load_call b) = b ≡ true
IsPlain (env, save_call draft) = IsFixed (route_of_draft env draft)
IsPlain (env, toggle_call id b) = redact_potential_secrets env.now ≡ env.now

unfoldable pub run : List Event → List Route × RoutesState → List Route × RoutesState
unfolding perform
run [] w = w
run ((env, call) ∷ es) w = run es (perform (gateway_at env) call w).1

perform-InStep :
    (env : Ambient) (call : Call) (w : List Route × RoutesState)
    → IsPlain (env, call)
    → InStep w
    → InStep (perform (gateway_at env) call w).1
unfolding perform
perform-InStep env (load_call b) (rs, p) e h =
    subst (λ c. InStep (load (gateway_at env) c (rs, p)).1) (sym e) (load-InStep env rs p h.0)
perform-InStep env (save_call draft) w e h = save-InStep env draft w e h
perform-InStep env (toggle_call id b) w e h = toggle-InStep env id b w e h

run-InStep :
    (es : List Event) (w : List Route × RoutesState) → All IsPlain es → InStep w → InStep (run es w)
unfolding run
run-InStep [] w h k = k
run-InStep ((env, call) ∷ es) w (h, hs) k =
    run-InStep es (perform (gateway_at env) call w).1 hs (perform-InStep env call w h k)

-- After a first `load(true)`, any sequence of saves, toggles and loads of all routes, that is
-- `load(true)`, through the mock executor leaves the projection showing, under each id, exactly the
-- route that the executor keeps; failed toggles are among the calls. No text that the executor
-- keeps at first, that a draft brings or that stands for the time looks like a secret.
pub load-run-InStep :
    (env : Ambient) (rs : List Route) (p : RoutesState) (es : List Event)
    → All IsFixed rs
    → All IsPlain es
    → InStep (run es (load (gateway_at env) true (rs, p)).1)
load-run-InStep env rs p es h hs = run-InStep es _ hs (load-InStep env rs p h)
