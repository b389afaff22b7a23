-- ===== src/Remote/Projection.antt =====
-- packages/app/src/projections/RoutesProjection.ts and its stores, apps/web/src/projection/
-- routesStore.ts and apps/desktop/src/renderer/store/routesStore.ts, which are one text.
use nginx_admin.Common.{Bool, false, Option, none, some, List, Text, truthy, if◌then◌else◌}
use nginx_admin.Common.Keyed.{has_key, replace_key}
use nginx_admin.Secrets.{redact_potential_secrets}
use nginx_admin.Remote.Types.{Route, id_of}
use nginx_admin.Remote.Local.{sanitize_route, sanitize_routes}
use mathlib.Core.List.{[], ◌∷◌, ◌++◌}

pub record RoutesState : Type 0 where
  pub pending : Bool
  pub error : Option Text
  pub routes : List Route

abbrev pub initial : RoutesState
initial = record { pending = false; error = none; routes = [] }

unfoldable pub set_pending : Bool → RoutesState → RoutesState
set_pending pending s = record s { pending = pending }

-- `error ? redactPotentialSecrets(error) : null`
unfoldable pub shown_error : Option Text → Option Text
shown_error none = none
shown_error (some e) = if truthy e then some (redact_potential_secrets e) else none

unfoldable pub set_error : Option Text → RoutesState → RoutesState
unfolding shown_error
set_error message s = record s { error = shown_error message }

unfoldable pub replace_routes : List Route → RoutesState → RoutesState
unfolding sanitize_routes
replace_routes routes s = record s { routes = sanitize_routes routes }

unfoldable pub upsert_route : Route → RoutesState → RoutesState
unfolding sanitize_route has_key replace_key
upsert_route route s = record s {
  routes =
      if has_key id_of route.id s.routes
      then replace_key id_of route.id (sanitize_route route) s.routes
      else s.routes ++ sanitize_route route ∷ [];
}
