-- ===== src/Remote/Gateway.antt =====
-- packages/infra/src/repositories/CommandRouteGateway.ts
use nginx_admin.Common.{true, some, or_else}
use nginx_admin.Remote.Types.{RouteGateway, RouteExecutor}

-- `CommandRouteGateway`, with its default `includeDisabled ?? true`.
unfoldable pub command_route_gateway : {S : Type 0} → RouteExecutor S → RouteGateway S
command_route_gateway executor = record {
  list = λ include_disabled. executor.routes_list (some (or_else include_disabled true));
  save = executor.routes_save;
  toggle = executor.routes_toggle;
}
