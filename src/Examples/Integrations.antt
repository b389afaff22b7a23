-- ===== src/Examples/Integrations.antt =====
-- Examples on the subscriptions between the stores.
use nginx_admin.Common.{ℕ, ◌≡◌, refl, false, none, some, [], ◌∷◌, ◌++◌, List, text}
use nginx_admin.Entities.{Route, running}
use nginx_admin.Logs.Store.{initial}
use nginx_admin.Forms.Store.{initial_form}
use nginx_admin.Routes.Repository.{RouteMap}
use nginx_admin.Routes.Adapter.{map_get, create_route_repository_adapter}
use nginx_admin.Server.{toggle}
use nginx_admin.Integrations.{App, Event, serve, select, delete, saved, load, run}
use nginx_admin.Integrations.Reported.{messages, reports, run-reports}
use nginx_admin.Integrations.Lost.{run-loses}
use nginx_admin.Examples.Samples.{site}
use nginx_admin.Server
use nginx_admin.Integrations

abbrev shop : Route
shop = record site { id = text "r2" }

abbrev held : RouteMap
held = (text "r1", site) ∷ []

abbrev app : App ℕ RouteMap
app = record {
  server = Server.initial 0 1000;
  logs = initial;
  storage = held;
  routes = record { routes = held; current_route_id = none; is_loading = false; error = none };
  form = initial_form;
  timers = 0;
}

abbrev events : List (Event ℕ)
events =
    saved shop
    ∷ serve (text "1") 2000 (toggle none)
    ∷ delete (text "r1")
    ∷ serve (text "2") 3000 (toggle (some running))
    ∷ serve (text "3") 4000 (toggle none)
    ∷ []

run-reports_example :
    messages (run create_route_repository_adapter events app).logs.logs
    ≡ messages app.logs.logs ++ reports events app.server.status
run-reports_example = run-reports create_route_repository_adapter events app

reported_twice :
    reports events app.server.status ≡ text "Server running" ∷ text "Server stopped" ∷ []
unfolding reports
reported_twice = refl

run-loses_example :
    map_get
      (text "r2")
      (run create_route_repository_adapter
        (events ++ select (some (text "r2")) ∷ Integrations.fire ∷ [])
        app).storage
    ≡ map_get (text "r2") held
run-loses_example =
    run-loses create_route_repository_adapter map_get (λ m s k. refl) events (some (text "r2")) app
      (text "r1", site) [] (text "r2") refl refl
