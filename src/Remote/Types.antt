-- ===== src/Remote/Types.antt =====
-- packages/core/src/domain/Route.ts, packages/core/src/ports/RouteGateway.ts and
-- packages/transport/src/contracts/routeCommands.ts
use nginx_admin.Common.{Bool, Option, List, Text}
use nginx_admin.Effects.{Action}

pub record Route : Type 0 where
  pub id : Text
  pub host : Text
  pub destination : Text
  pub enabled : Bool
  pub updated_at : Text

pub record RouteDraft : Type 0 where
  pub id : Option Text
  pub host : Text
  pub destination : Text
  pub enabled : Option Bool

-- `list` is given the property `includeDisabled`, if it is there.
pub record RouteGateway (S : Type 0) : Type 0 where
  pub list : Option Bool → Action S (List Route)
  pub save : RouteDraft → Action S Route
  pub toggle : Text → Bool → Action S Route

-- A `RemoteExecutor<RouteCommandMap>`: `execute` at each of the three commands, whose responses
-- differ in type.
pub record RouteExecutor (S : Type 0) : Type 0 where
  pub routes_list : Option Bool → Action S (List Route)
  pub routes_save : RouteDraft → Action S Route
  pub routes_toggle : Text → Bool → Action S Route

abbrev pub id_of : Route → Text
id_of r = r.id
