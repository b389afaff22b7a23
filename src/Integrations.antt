-- ===== src/Integrations.antt =====
-- packages/core/src/services/IntegrationService.ts and the subscriptions of
-- apps/web/src/processes/integrations/storeIntegrations.ts between the stores.
pub mod Reported
pub mod Lost
use nginx_admin.Common.{
  ℕ, zero, suc, is_some, Bool, true, false, not, ◌&&◌, Option, none, some, List, [], ◌∷◌, Text,
  text, ◌++◌, ◌===◌, if◌then◌else◌, truthy,
}
use nginx_admin.Effects.{Result, ok, fail}
use nginx_admin.Entities.{
  Route, AdvancedConfig, ServerStatus, running, stopped, restarting, info, system,
}
use nginx_admin.Logs.Entries.{LogEntry, instant}
use nginx_admin.Logs.Store.{LogsState, add_log, update}
use nginx_admin.Forms.Drafts.{PartialRoute, PartialAdvanced}
use nginx_admin.Forms.Store.{FormState, set_form_data, reset_form}
use nginx_admin.Routes.Repository.{RouteMap, RouteRepository}
use nginx_admin.Routes.Adapter.{map_get}
use nginx_admin.Routes.Slice.{
  RoutesState, message_of, loading, set_current_route, load_routes, delete_route, save_routes,
}
use nginx_admin.Server.{ServerState, ServerAction}
use nginx_admin.Server

abbrev pub status_name : ServerStatus → Text
status_name running = text "running"
status_name stopped = text "stopped"
status_name restarting = text "restarting"

abbrev pub same_status : ServerStatus → ServerStatus → Bool
same_status running running = true
same_status stopped stopped = true
same_status restarting restarting = true
same_status _ _ = false

abbrev pub status_entry : ℕ → ServerStatus → LogEntry
status_entry now current = record {
  id = [];
  timestamp = instant now;
  level = info;
  message = text "Server " ++ status_name current;
  source = system;
  ip = none;
  route_id = none;
  context = none;
}

-- The entry has no id yet: `addLog` gives it one.
unfoldable pub handle_server_status_change : ℕ → ServerStatus → ServerStatus → Option LogEntry
handle_server_status_change now current previous =
    if same_status current previous then none else some (status_entry now current)

-- `===` on an id that may be `null`.
abbrev pub same_id : Option Text → Option Text → Bool
same_id none none = true
same_id (some a) (some b) = a === b
same_id _ _ = false

abbrev pub selected : Option Text → RouteMap → Option Route
unfolding map_get
selected none routes = none
selected (some id) routes = if truthy id then map_get id routes else none

unfoldable pub handle_route_selection_change : Option Text → Option Text → RouteMap → Option Route
handle_route_selection_change current previous routes =
    if same_id current previous then none else selected current routes

abbrev pub some_settings : Option AdvancedConfig → Option PartialAdvanced
some_settings none = none
some_settings (some a) = some (record {
  client_max_body_size = some a.client_max_body_size;
  keepalive_timeout = some a.keepalive_timeout;
  gzip = some a.gzip;
  gzip_types = a.gzip_types;
  caching = some a.caching;
  cache_valid = a.cache_valid;
})

-- A route as `setFormData` takes it: a `Partial` with all its properties.
abbrev pub partial_of_route : Route → PartialRoute
partial_of_route r = record {
  id = some r.id;
  domain = some r.domain;
  port = some r.port;
  root = some r.root;
  enabled = some r.enabled;
  ssl = some r.ssl;
  ssl_certificate = r.ssl_certificate;
  ssl_certificate_key = r.ssl_certificate_key;
  proxy_pass = r.proxy_pass;
  locations = some r.locations;
  advanced = some_settings r.advanced;
  metadata = r.metadata;
}

-- The subscription to the store of the server.
abbrev pub log_entry : Text → Option LogEntry → LogsState → LogsState
unfolding update
log_entry id none logs = logs
log_entry id (some entry) logs = update (add_log id entry) logs

unfoldable pub report_status : Text → ℕ → ServerStatus → ServerStatus → LogsState → LogsState
unfolding handle_server_status_change log_entry
report_status id now current previous logs =
    log_entry id (handle_server_status_change now current previous) logs

-- The first subscription to the store of the routes.
abbrev pub fill_form : Option Route → Bool → FormState → FormState
unfolding set_form_data reset_form
fill_form (some route) closed form = set_form_data (partial_of_route route) form
fill_form none closed form = if closed then reset_form form else form

unfoldable pub sync_form : RoutesState → RoutesState → FormState → FormState
unfolding handle_route_selection_change fill_form
sync_form st prev form =
    fill_form (handle_route_selection_change st.current_route_id prev.current_route_id st.routes)
      (not (is_some st.current_route_id) && is_some prev.current_route_id) form

-- The second: the timers that wait to save.
abbrev pub autosave : RouteMap → ℕ → ℕ
autosave [] timers = timers
autosave (e ∷ es) timers = suc timers

-- The stores with their subscriptions, over the state S of the repository.
pub record App (N S : Type 0) : Type 0 where
  pub server : ServerState N
  pub logs : LogsState
  pub storage : S
  pub routes : RoutesState
  pub form : FormState
  pub timers : ℕ

-- What runs: an action of the server at a time and with an id for the entry, an action of the
-- routes, a route that a use case saves through the repository, or a timer. `addRoute`,
-- `updateRoute` and `toggleRouteStatus` set nothing in the store when they succeed.
pub data Event (N : Type 0) : Type 0 where
  serve : Text → ℕ → ServerAction N → Event N
  select : Option Text → Event N
  delete : Text → Event N
  saved : Route → Event N
  load fire : Event N

-- Whether a `catch` sets the error.
abbrev pub sets_error : {A : Type 0} → Result A → Bool
sets_error (ok a) = false
sets_error (fail e) = is_some (message_of e)

abbrev pub sets : {A : Type 0} → Result A → Bool
sets (ok a) = true
sets (fail e) = is_some (message_of e)

module _ {N S : Type 0} where
  -- `set` on the store of the routes: the subscriptions run.
  unfoldable pub set_routes : RoutesState → App N S → App N S
  unfolding sync_form
  set_routes st app = record app {
    routes = st;
    form = sync_form st app.routes app.form;
    timers = autosave st.routes app.timers;
  }

  unfoldable pub serve_app : Text → ℕ → ServerAction N → App N S → App N S
  unfolding report_status Server.update
  serve_app id now action app =
      let server = Server.update now action app.server in
      record app {
        server = server;
        logs = report_status id now server.status app.server.status app.logs;
      }

  -- The state after an action of the store, with what its last `set` sets off when there is one.
  abbrev pub settle : {A : Type 0} → Bool → Result A × (S × RoutesState) → App N S → App N S
  unfolding set_routes
  settle true (r, (s, st)) app = set_routes st (record app { storage = s })
  settle false (r, (s, st)) app = record app { storage = s }

  module _ (repository : RouteRepository S) where
    unfoldable pub load_app : App N S → App N S
    unfolding settle set_routes load_routes
    load_app app =
        let begun = set_routes (loading app.routes) app in
        settle (sets (repository.load_all app.storage).0)
          (load_routes repository (app.storage, app.routes)) begun

    unfoldable pub delete_app : Text → App N S → App N S
    unfolding settle delete_route
    delete_app id app =
        settle (sets (repository.delete id app.storage).0)
          (delete_route repository id (app.storage, app.routes)) app

    -- `setTimeout(() => state.saveRoutes(), 1000)`, when a timer waits.
    abbrev pub fire_timer : ℕ → App N S → App N S
    unfolding settle save_routes
    fire_timer zero app = app
    fire_timer (suc timers) app =
        settle (sets_error (repository.save_all app.routes.routes app.storage).0)
          (save_routes repository (app.storage, app.routes)) (record app { timers = timers })

    unfoldable pub step : Event N → App N S → App N S
    unfolding serve_app set_routes set_current_route load_app delete_app fire_timer
    step (serve id now action) app = serve_app id now action app
    step (select id) app = set_routes (set_current_route id app.routes) app
    step (delete id) app = delete_app id app
    step (saved r) app = record app { storage = (repository.save r app.storage).1 }
    step load app = load_app app
    step fire app = fire_timer app.timers app

    unfoldable pub run : List (Event N) → App N S → App N S
    unfolding step
    run [] app = app
    run (e ∷ es) app = run es (step e app)
