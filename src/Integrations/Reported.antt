-- ===== src/Integrations/Reported.antt =====
-- apps/web/src/processes/integrations/storeIntegrations.ts: what the log says of the server.
use nginx_admin.Common.{
  ℕ, zero, suc, Bool, true, false, ◌≡◌, refl, ap, ap₂, sym, ◌∙◌, List, [], ◌∷◌, ◌++◌, Text, text,
  append_assoc, append-nil, if◌then◌else◌,
}
use nginx_admin.Secrets.{redact_potential_secrets}
use nginx_admin.Effects.{Result}
use nginx_admin.Entities.{ServerStatus, running, stopped, restarting}
use nginx_admin.Logs.Entries.{LogEntry}
use nginx_admin.Logs.Store.{LogsState, update, sanitize_log, create_log_entry}
use nginx_admin.Routes.Repository.{RouteRepository}
use nginx_admin.Routes.Slice.{RoutesState}
use nginx_admin.Server.{ServerAction, toggle, set_stats, set_info, toggle_status}
use nginx_admin.Integrations.{
  App, Event, serve, select, delete, saved, load, fire, step, run, settle, set_routes, serve_app,
  load_app, delete_app, fire_timer, status_name, same_status, report_status,
  handle_server_status_change,
}
use nginx_admin.Server

abbrev pub messages : List LogEntry → List Text
messages [] = []
messages (l ∷ ls) = l.message ∷ messages ls

messages-append : (xs ys : List LogEntry) → messages (xs ++ ys) ≡ messages xs ++ messages ys
messages-append [] ys = refl
messages-append (x ∷ xs) ys = ap (λ ms. x.message ∷ ms) (messages-append xs ys)

-- The message on a status that is not the one before.
abbrev pub report : ServerStatus → ServerStatus → List Text
report current previous =
    if same_status current previous then [] else (text "Server " ++ status_name current) ∷ []

report_status-report :
    (id : Text) (now : ℕ) (current previous : ServerStatus) (logs : LogsState)
    → messages (report_status id now current previous logs).logs
      ≡ messages logs.logs ++ report current previous
unfolding report_status handle_server_status_change update sanitize_log create_log_entry
    redact_potential_secrets
report_status-report id now running running logs = sym (append-nil (messages logs.logs))
report_status-report id now stopped stopped logs = sym (append-nil (messages logs.logs))
report_status-report id now restarting restarting logs = sym (append-nil (messages logs.logs))
report_status-report id now running stopped logs = messages-append logs.logs _
report_status-report id now running restarting logs = messages-append logs.logs _
report_status-report id now stopped running logs = messages-append logs.logs _
report_status-report id now stopped restarting logs = messages-append logs.logs _
report_status-report id now restarting running logs = messages-append logs.logs _
report_status-report id now restarting stopped logs = messages-append logs.logs _

module _ {N : Type 0} where
  -- The status behind an event.
  abbrev pub status_after : Event N → ServerStatus → ServerStatus
  unfolding toggle_status
  status_after (serve id now (toggle next)) status = toggle_status status next
  status_after _ status = status

  -- The messages on the changes of the status that the events make.
  unfoldable pub reports : List (Event N) → ServerStatus → List Text
  unfolding status_after
  reports [] status = []
  reports (e ∷ es) status =
      report (status_after e status) status ++ reports es (status_after e status)

same-report : (s : ServerStatus) → report s s ≡ []
same-report running = refl
same-report stopped = refl
same-report restarting = refl

module _ {N S : Type 0} where
  -- What the subscriptions of the store of the routes leave alone.
  abbrev Same : App N S → App N S → Type 0
  Same a b = (a.server ≡ b.server) × (a.logs ≡ b.logs)

  settle-Same :
      {A : Type 0} (b : Bool) (x : Result A × (S × RoutesState)) (app : App N S)
      → Same (settle b x app) app
  unfolding settle set_routes
  settle-Same true x app = (refl, refl)
  settle-Same false x app = (refl, refl)

  reported :
      (a app : App N S)
      → Same a app
      → (a.server.status ≡ app.server.status)
        × (messages a.logs.logs ≡ messages app.logs.logs ++ [])
  reported a app (p, q) = (
    ap (λ s. s.status) p,
    ap (λ l. messages l.logs) q ∙ sym (append-nil (messages app.logs.logs)),
  )

  module _ (repository : RouteRepository S) where
    fire_timer-Same : (n : ℕ) (app : App N S) → Same (fire_timer repository n app) app
    unfolding fire_timer
    fire_timer-Same zero app = (refl, refl)
    fire_timer-Same (suc n) app = settle-Same _ _ _

    step-report :
        (e : Event N) (app : App N S)
        → ((step repository e app).server.status ≡ status_after e app.server.status)
          × (messages (step repository e app).logs.logs
              ≡ messages app.logs.logs
                ++ report (status_after e app.server.status) app.server.status)
    unfolding step serve_app load_app delete_app status_after Server.update set_routes
    step-report (serve id now (toggle next)) app = (refl, report_status-report id now _ _ app.logs)
    step-report (serve id now (set_stats us)) app = (refl, report_status-report id now _ _ app.logs)
    step-report (serve id now (set_info v)) app = (refl, report_status-report id now _ _ app.logs)
    step-report (select id) app =
        rw (same-report app.server.status)
          (reported (step repository (select id) app) app (refl, refl))
    step-report (delete id) app =
        rw (same-report app.server.status)
          (reported (step repository (delete id) app) app (settle-Same _ _ app))
    step-report (saved r) app =
        rw (same-report app.server.status)
          (reported (step repository (saved r) app) app (refl, refl))
    step-report load app =
        rw (same-report app.server.status)
          (reported (step repository load app) app (settle-Same _ _ _))
    step-report fire app =
        rw (same-report app.server.status)
          (reported (step repository fire app) app (fire_timer-Same app.timers app))

    -- Over any repository and after any events, the log has the messages that it had, and behind
    -- them one message for each change of the status of the server, in order, that names the new
    -- status; an action that keeps the status and the events of the routes add none.
    pub run-reports :
        (es : List (Event N)) (app : App N S)
        → messages (run repository es app).logs.logs
          ≡ messages app.logs.logs ++ reports es app.server.status
    unfolding run reports
    run-reports [] app = sym (append-nil (messages app.logs.logs))
    run-reports (e ∷ es) app =
        let (p, q) = step-report e app in
        run-reports es (step repository e app)
        ∙ ap₂ (λ ms s. ms ++ reports es s) q p
        ∙ rw append_assoc refl
