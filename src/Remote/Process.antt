-- ===== src/Remote/Process.antt =====
-- packages/app/src/processes/RoutesProcess.ts
pub mod Settled
pub mod History
pub mod Mirror
use nginx_admin.Common.{Bool, true, false, Option, none, some, List, Text, text}
use nginx_admin.Effects.{Failure, message_or, Action, Result, ok, fail}
use nginx_admin.Remote.Types.{Route, RouteDraft, RouteGateway}
use nginx_admin.Remote.Projection.{
  RoutesState, set_pending, set_error, replace_routes, upsert_route,
}

module _ {S : Type 0} (gateway : RouteGateway S) where
  -- `setPending(true)`, `setError(null)`
  abbrev begin : RoutesState → RoutesState
  begin p = set_error none (set_pending true p)

  -- The `catch` and the `finally` of the three methods, whose calls of the gateway end with `r`.
  unfoldable pub settle :
      {A : Type 0}
      → Text
      → (A → RoutesState → RoutesState)
      → Result A × S
      → RoutesState
      → Result (Unit {0}) × (S × RoutesState)
  unfolding set_pending set_error
  settle fallback project (ok a, s) p = (ok tt, (s, set_pending false (project a p)))
  settle fallback project (fail f, s) p =
      (fail f, (s, set_pending false (set_error (some (message_or fallback f)) p)))

  unfoldable pub load : Bool → Action (S × RoutesState) (Unit {0})
  unfolding settle replace_routes
  load include_disabled (s, p) =
      settle (text "Failed to load routes") replace_routes (gateway.list (some include_disabled) s)
        (begin p)

  unfoldable pub save : RouteDraft → Action (S × RoutesState) (Unit {0})
  unfolding settle upsert_route
  save draft (s, p) =
      settle (text "Failed to save route") upsert_route (gateway.save draft s) (begin p)

  unfoldable pub toggle : Text → Bool → Action (S × RoutesState) (Unit {0})
  unfolding settle upsert_route
  toggle id enabled (s, p) =
      settle (text "Failed to toggle route") upsert_route (gateway.toggle id enabled s) (begin p)
