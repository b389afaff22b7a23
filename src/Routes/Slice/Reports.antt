-- ===== src/Routes/Slice/Reports.antt =====
-- What the store of the routes does with the results of its repository.
use nginx_admin.Common.{ℕ, ◌≡◌, refl, true, false, none, some, List, Text}
use nginx_admin.Secrets.{redact_potential_secrets}
use nginx_admin.Zod.{Issue, Zod}
use nginx_admin.Effects.{Failure, error, remote_error, thrown, Action, Result, ok, fail}
use nginx_admin.Entities.{Route}
use nginx_admin.Routes.Repository.{RouteMap, RouteRepository}
use nginx_admin.Routes.UseCases.{Creation, Update, create_route, update_route, toggle_route_status}
use nginx_admin.Routes.Sanitised.{sanitize_routes_map}
use nginx_admin.Routes.Slice.{
  RoutesState, message_of, type_error, settle_call, settle_load, reporting, load_routes, loading,
  add_route, update, toggle, delete_route, unless_current,
}

-- The result of a call, that of the action around it, and the store before and after: the store
-- changes as the action says, or only by the message that it shows.
pub data Reports {A : Type 0} (next st : RoutesState)
    : Result A → Result A → RoutesState → Type 0 where
  returns : (a : A) → Reports next st (ok a) (ok a) next
  rethrows :
      (e : Failure) (message : Text)
      → message_of e ≡ some message
      → Reports next st
          (fail e)
          (fail e)
          (record st { error = some (redact_potential_secrets message) })
  breaks : (e : Failure) → message_of e ≡ none → Reports next st (fail e) (fail type_error) st

module _ {S A : Type 0} (call : Action S A) (next : RoutesState → RoutesState) (s : S)
    (st : RoutesState) where
  reporting-Reports :
      ((reporting call (λ a. next) (s, st)).1.0 ≡ (call s).1)
      × Reports
          (next st)
          st
          (call s).0
          (reporting call (λ a. next) (s, st)).0
          (reporting call (λ a. next) (s, st)).1.1
  unfolding reporting
  reporting-Reports = split (call s).0
    where
      split :
          (r : Result A)
          → ((settle_call (r, (call s).1) (λ a. next) st).1.0 ≡ (call s).1)
            × Reports
                (next st)
                st
                r
                (settle_call (r, (call s).1) (λ a. next) st).0
                (settle_call (r, (call s).1) (λ a. next) st).1.1
      split (ok a) = (refl, returns a)
      split (fail (error m)) = (refl, rethrows (error m) m refl)
      split (fail (remote_error m code)) = (refl, rethrows (remote_error m code) m refl)
      split (fail thrown) = (refl, breaks thrown refl)

pub data StoreCall : Type 0 where
  adding : Creation → Route → StoreCall
  updating : ℕ → Text → List Update → StoreCall
  toggling : ℕ → Text → StoreCall
  deleting : Text → StoreCall

-- How the store changes when the call succeeds.
abbrev pub after : StoreCall → RoutesState → RoutesState
after (deleting id) st = record st { current_route_id = unless_current id st.current_route_id }
after _ st = st

module _ {S : Type 0} (zod : Zod) (zod_message : Issue → List Issue → Text)
    (repository : RouteRepository S) where
  abbrev pub Answers :
      {A : Type 0} → StoreCall → Action S A → Action (S × RoutesState) A → S → RoutesState → Type 0
  Answers c call action s st =
      ((action (s, st)).1.0 ≡ (call s).1)
      × Reports (after c st) st (call s).0 (action (s, st)).0 (action (s, st)).1.1

  abbrev pub Reported : StoreCall → S → RoutesState → Type 0
  Reported (adding env r) =
      Answers (adding env r) (create_route zod zod_message repository env r)
        (add_route zod zod_message repository env r)
  Reported (updating now id us) =
      Answers (updating now id us) (update_route zod zod_message repository now id us)
        (update zod zod_message repository now id us)
  Reported (toggling now id) =
      Answers (toggling now id) (toggle_route_status zod zod_message repository now id)
        (toggle zod zod_message repository now id)
  Reported (deleting id) = Answers (deleting id) (repository.delete id) (delete_route repository id)

  -- An action of the store returns or throws what the use case behind it returns or throws, and
  -- leaves the repository as that does. If it returns, the store is unchanged, except that a route
  -- that is deleted is no longer the current one; if it throws an `Error`, the store shows the
  -- redacted message and is unchanged otherwise.
  pub call-Reported : (c : StoreCall) (s : S) (st : RoutesState) → Reported c s st
  unfolding add_route update toggle delete_route
  call-Reported (adding env r) s st =
      reporting-Reports (create_route zod zod_message repository env r) (after (adding env r)) s st
  call-Reported (updating now id us) s st =
      reporting-Reports (update_route zod zod_message repository now id us)
        (after (updating now id us)) s st
  call-Reported (toggling now id) s st =
      reporting-Reports (toggle_route_status zod zod_message repository now id)
        (after (toggling now id)) s st
  call-Reported (deleting id) s st =
      reporting-Reports (repository.delete id) (after (deleting id)) s st

-- How a load ends.
pub data Loads (st : RoutesState) : Result RouteMap → Result (Unit {0}) → RoutesState → Type 0 where
  loaded :
      (m : RouteMap)
      → Loads st
          (ok m)
          (ok tt)
          (record st { routes = sanitize_routes_map m; is_loading = false; error = none })
  not_loaded :
      (e : Failure) (message : Text)
      → message_of e ≡ some message
      → Loads st
          (fail e)
          (ok tt)
          (record st { is_loading = false; error = some (redact_potential_secrets message) })
  stuck :
      (e : Failure)
      → message_of e ≡ none
      → Loads st (fail e) (fail type_error) (record st { is_loading = true; error = none })

module _ {S : Type 0} (repository : RouteRepository S) (s : S) (st : RoutesState) where
  -- `loadRoutes` leaves the repository as the load leaves it. It shows the sanitised routes and no
  -- error, or, if the load throws an `Error`, the old routes and the redacted message; in both
  -- cases it is no longer loading and throws nothing.
  pub load_routes-Loads :
      ((load_routes repository (s, st)).1.0 ≡ (repository.load_all s).1)
      × Loads st
          (repository.load_all s).0
          (load_routes repository (s, st)).0
          (load_routes repository (s, st)).1.1
  unfolding load_routes
  load_routes-Loads = split (repository.load_all s).0
    where
      split :
          (r : Result RouteMap)
          → ((settle_load (r, (repository.load_all s).1) (loading st)).1.0
              ≡ (repository.load_all s).1)
            × Loads st r
                (settle_load (r, (repository.load_all s).1) (loading st)).0
                (settle_load (r, (repository.load_all s).1) (loading st)).1.1
      split (ok m) = (refl, loaded m)
      split (fail (error m)) = (refl, not_loaded (error m) m refl)
      split (fail (remote_error m code)) = (refl, not_loaded (remote_error m code) m refl)
      split (fail thrown) = (refl, stuck thrown refl)
