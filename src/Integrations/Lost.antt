-- ===== src/Integrations/Lost.antt =====
-- apps/web/src/processes/integrations/storeIntegrations.ts: what the timers save.
use nginx_admin.Common.{
  ℕ, zero, suc, Bool, true, false, ◌≡◌, refl, ap, ◌∙◌, List, [], ◌∷◌, ◌++◌, Option, Text, all, ◌&&◌,
}
use nginx_admin.Effects.{Result, ok, fail, error, remote_error, thrown}
use nginx_admin.Entities.{Route}
use nginx_admin.Routes.Repository.{RouteMap, RouteRepository}
use nginx_admin.Routes.Adapter.{map_get}
use nginx_admin.Routes.Slice.{
  RoutesState, set_current_route, settle_call, settle_save, save_routes, delete_route, reporting,
  reported,
}
use nginx_admin.Integrations.{
  App, Event, serve, select, delete, saved, load, fire, step, run, settle, set_routes, serve_app,
  delete_app, fire_timer, autosave, sets, sets_error,
}

abbrev pub keeps_routes : {N : Type 0} → Event N → Bool
keeps_routes load = false
keeps_routes _ = true

both : (a b : Bool) → (a && b) ≡ true → (a ≡ true) × (b ≡ true)
both true b h = (refl, h)
both false b h = cc

module _ {S : Type 0} where
  settle_call-routes :
      {A : Type 0} (x : Result A × S) (done : A → RoutesState → RoutesState) (st : RoutesState)
      → ((a : A) → (done a st).routes ≡ st.routes)
      → (settle_call x done st).1.1.routes ≡ st.routes
  unfolding reported
  settle_call-routes (ok a, s) done st h = h a
  settle_call-routes (fail (error m), s) done st h = refl
  settle_call-routes (fail (remote_error m c), s) done st h = refl
  settle_call-routes (fail thrown, s) done st h = refl

  settle_save-kept :
      (x : Result (Unit {0}) × S) (st : RoutesState)
      → ((settle_save x st).1.0 ≡ x.1) × ((settle_save x st).1.1.routes ≡ st.routes)
  settle_save-kept (ok u, s) st = (refl, refl)
  settle_save-kept (fail (error m), s) st = (refl, refl)
  settle_save-kept (fail (remote_error m c), s) st = (refl, refl)
  settle_save-kept (fail thrown, s) st = (refl, refl)

module _ {N S : Type 0} where
  settle-routes :
      {A : Type 0} (b : Bool) (x : Result A × (S × RoutesState)) (app : App N S)
      → x.1.1.routes ≡ app.routes.routes
      → (settle b x app).routes.routes ≡ app.routes.routes
  unfolding settle set_routes
  settle-routes true x app h = h
  settle-routes false x app h = refl

  settle-storage :
      {A : Type 0} (b : Bool) (x : Result A × (S × RoutesState)) (app : App N S)
      → (settle b x app).storage ≡ x.1.0
  unfolding settle set_routes
  settle-storage true x app = refl
  settle-storage false x app = refl

  module _ (repository : RouteRepository S) where
    fire_timer-routes :
        (n : ℕ) (app : App N S) → (fire_timer repository n app).routes.routes ≡ app.routes.routes
    unfolding fire_timer save_routes
    fire_timer-routes zero app = refl
    fire_timer-routes (suc n) app =
        settle-routes (sets_error (repository.save_all app.routes.routes app.storage).0)
          (save_routes repository (app.storage, app.routes)) (record app { timers = n })
          (settle_save-kept (repository.save_all app.routes.routes app.storage) app.routes).1

    step-routes :
        (e : Event N) (app : App N S)
        → keeps_routes e ≡ true
        → (step repository e app).routes.routes ≡ app.routes.routes
    unfolding step serve_app delete_app delete_route reporting set_routes set_current_route
    step-routes (serve id now action) app h = refl
    step-routes (select id) app h = refl
    step-routes (delete id) app h =
        settle-routes (sets (repository.delete id app.storage).0)
          (delete_route repository id (app.storage, app.routes)) app
          (settle_call-routes (repository.delete id app.storage) _ app.routes (λ a. refl))
    step-routes (saved r) app h = refl
    step-routes fire app h = fire_timer-routes app.timers app
    step-routes load app h = cc

    run-routes :
        (es : List (Event N)) (app : App N S)
        → all keeps_routes es ≡ true
        → (run repository es app).routes.routes ≡ app.routes.routes
    unfolding run
    run-routes [] app h = refl
    run-routes (e ∷ es) app h =
        let (p, q) = both (keeps_routes e) _ h in
        run-routes es (step repository e app) q ∙ step-routes e app p

    run-append :
        (es fs : List (Event N)) (app : App N S)
        → run repository (es ++ fs) app ≡ run repository fs (run repository es app)
    unfolding run
    run-append [] fs app = refl
    run-append (e ∷ es) fs app = run-append es fs (step repository e app)

    module _ (view : Text → S → Option Route)
        (view-save_all : (m : RouteMap) (s : S) (k : Text)
          → view k (repository.save_all m s).1 ≡ map_get k m) where
      fired :
          (n : ℕ) (app : App N S) (k : Text)
          → view k (fire_timer repository (suc n) app).storage ≡ map_get k app.routes.routes
      unfolding fire_timer save_routes
      fired n app k =
          ap (view k) (
            settle-storage (sets_error (repository.save_all app.routes.routes app.storage).0)
              (save_routes repository (app.storage, app.routes)) (record app { timers = n })
            ∙ (settle_save-kept (repository.save_all app.routes.routes app.storage) app.routes).0)
          ∙ view-save_all app.routes.routes app.storage k

      selected_then_fired :
          (id : Option Text) (app : App N S) (e : Text × Route) (m : RouteMap) (k : Text)
          → app.routes.routes ≡ e ∷ m
          → view k (run repository (select id ∷ fire ∷ []) app).storage ≡ map_get k (e ∷ m)
      unfolding run step set_routes set_current_route
      selected_then_fired id app e m k h =
          ap (λ n. view k (fire_timer repository n (step repository (select id) app)).storage)
            (ap (λ routes. autosave routes app.timers) h)
          ∙ fired app.timers (step repository (select id) app) k
          ∙ ap (map_get k) h

      -- Let the store hold some routes, and let a repository replace its contents on `saveAll`.
      -- After any events but a load, among them routes that use cases save and routes that are
      -- deleted, a selection and the timer that it starts set the repository back to the routes
      -- that the store holds: what was saved in between is lost, and what was deleted is back.
      pub run-loses :
          (es : List (Event N)) (id : Option Text) (app : App N S) (e : Text × Route) (m : RouteMap)
          (k : Text)
          → all keeps_routes es ≡ true
          → app.routes.routes ≡ e ∷ m
          → view k (run repository (es ++ select id ∷ fire ∷ []) app).storage ≡ map_get k (e ∷ m)
      run-loses es id app e m k h g =
          ap (λ a. view k a.storage) (run-append es (select id ∷ fire ∷ []) app)
          ∙ selected_then_fired id (run repository es app) e m k (run-routes es app h ∙ g)
