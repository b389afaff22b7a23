-- ===== src/Routes/Slice.antt =====
-- packages/shared/src/store/slices/routesSlice.ts: the store over a repository. Its state is that
-- of the repository with that of the store.
pub mod Reports
use nginx_admin.Common.{
  ℕ, Bool, true, false, Option, none, some, List, [], ◌∷◌, Text, text, ◌===◌, if◌then◌else◌,
}
use nginx_admin.Secrets.{redact_potential_secrets}
use nginx_admin.Zod.{Issue, Zod}
use nginx_admin.Effects.{Failure, error, remote_error, thrown, Action, Result, ok, fail}
use nginx_admin.Entities.{Route}
use nginx_admin.Routes.Repository.{RouteMap, RouteRepository}
use nginx_admin.Routes.UseCases.{Creation, Update, create_route, update_route, toggle_route_status}
use nginx_admin.Routes.Sanitised.{sanitize_routes_map}

pub record RoutesState : Type 0 where
  pub routes : RouteMap
  pub current_route_id : Option Text
  pub is_loading : Bool
  pub error : Option Text

-- `(error as Error).message`: `undefined` for a value that is no `Error`.
abbrev pub message_of : Failure → Option Text
message_of (Failure.error message) = some message
message_of (remote_error message code) = some message
message_of thrown = none

-- What a `catch` throws when it redacts a message that is `undefined`.
abbrev pub type_error : Failure
type_error = Failure.error (text "Cannot read properties of undefined (reading 'replace')")

-- `set({ error: redactPotentialSecrets((error as Error).message) })`, and what is thrown then.
unfoldable pub reported :
    {A : Type 0} → Failure → Option Text → RoutesState → Result A × RoutesState
reported e (some message) st =
    (fail e, record st { error = some (redact_potential_secrets message) })
reported e none st = (fail type_error, st)

module _ {S A : Type 0} where
  abbrev pub settle_call :
      Result A × S → (A → RoutesState → RoutesState) → RoutesState → Result A × (S × RoutesState)
  settle_call (ok a, s) done st = (ok a, (s, done a st))
  settle_call (fail e, s) done st = let (r, st') = reported e (message_of e) st in (r, (s, st'))

  -- `try { … } catch (error) { set({ error }); throw error; }`
  unfoldable pub reporting :
      Action S A → (A → RoutesState → RoutesState) → Action (S × RoutesState) A
  unfolding reported
  reporting call done (s, st) = settle_call (call s) done st

module _ {S : Type 0} (zod : Zod) (zod_message : Issue → List Issue → Text)
    (repository : RouteRepository S) where
  unfoldable pub add_route : Creation → Route → Action (S × RoutesState) Text
  unfolding reporting
  add_route env route_data =
      reporting (create_route zod zod_message repository env route_data) (λ id st. st)

  unfoldable pub update : ℕ → Text → List Update → Action (S × RoutesState) (Unit {0})
  unfolding reporting
  update now id updates =
      reporting (update_route zod zod_message repository now id updates) (λ u st. st)

  unfoldable pub toggle : ℕ → Text → Action (S × RoutesState) (Unit {0})
  unfolding reporting
  toggle now id = reporting (toggle_route_status zod zod_message repository now id) (λ u st. st)

abbrev pub unless_current : Text → Option Text → Option Text
unless_current id none = none
unless_current id (some current) = if current === id then none else some current

unfoldable pub set_current_route : Option Text → RoutesState → RoutesState
set_current_route id st = record st { current_route_id = id }

abbrev pub loading : RoutesState → RoutesState
loading st = record st { is_loading = true; error = none }

-- The `catch` of `loadRoutes` throws nothing, but on a message that is `undefined`.
abbrev pub not_loaded : Option Text → RoutesState → Result (Unit {0}) × RoutesState
not_loaded (some message) st =
    (ok tt, record st { error = some (redact_potential_secrets message); is_loading = false })
not_loaded none st = (fail type_error, st)

module _ {S : Type 0} where
  abbrev pub settle_load : Result RouteMap × S → RoutesState → Result (Unit {0}) × (S × RoutesState)
  settle_load (ok routes, s) st =
      (ok tt, (s, record st { routes = sanitize_routes_map routes; is_loading = false }))
  settle_load (fail e, s) st = let (r, st') = not_loaded (message_of e) st in (r, (s, st'))

  abbrev pub settle_save : Result (Unit {0}) × S → RoutesState → Result Bool × (S × RoutesState)
  settle_save (ok u, s) st = (ok true, (s, st))
  settle_save (fail e, s) st = elim (message_of e) [
    | some message ↦ (ok false, (s, record st { error = some (redact_potential_secrets message) }))
    | none ↦ (fail type_error, (s, st))
  ]

module _ {S : Type 0} (repository : RouteRepository S) where
  unfoldable pub delete_route : Text → Action (S × RoutesState) (Unit {0})
  unfolding reporting
  delete_route id =
      reporting (repository.delete id)
        (λ u st. record st { current_route_id = unless_current id st.current_route_id })

  unfoldable pub load_routes : Action (S × RoutesState) (Unit {0})
  load_routes (s, st) = settle_load (repository.load_all s) (loading st)

  unfoldable pub save_routes : Action (S × RoutesState) Bool
  save_routes (s, st) = settle_save (repository.save_all st.routes s) st
