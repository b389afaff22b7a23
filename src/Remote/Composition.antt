-- ===== src/Remote/Composition.antt =====
-- The process of the routes as it is put together in apps/desktop/src/renderer/composition/
-- composeRoutesProcess.ts and, over the mock executor, in apps/web/src/composition/
-- composeRoutesProcess.ts, with the hook apps/web/src/features/routes/useRoutesProcess.ts. Calls
-- are taken one after another, each at its own time.
pub mod Same
use nginx_admin.Common.{Bool, true, List, [], ◌∷◌, Text}
use nginx_admin.Effects.{Action, Result}
use nginx_admin.Remote.Types.{Route, RouteDraft, RouteExecutor, RouteGateway}
use nginx_admin.Remote.Drafts.{Ambient}
use nginx_admin.Remote.Mock.{mock_executor}
use nginx_admin.Remote.Local.{Renderer, local_executor}
use nginx_admin.Remote.Gateway.{command_route_gateway}
use nginx_admin.Remote.Projection.{RoutesState}
use nginx_admin.Remote.Process.{load, save, toggle}

unfoldable pub create_transitional_route_gateway : {S : Type 0} → RouteExecutor S → RouteGateway S
unfolding command_route_gateway
create_transitional_route_gateway executor = command_route_gateway executor

-- The gateway behind the process, at one moment.
abbrev pub desktop_gateway : Ambient → RouteGateway Renderer
desktop_gateway env = create_transitional_route_gateway (local_executor env)

abbrev pub web_gateway : Ambient → RouteGateway (List Route)
web_gateway env = create_transitional_route_gateway (mock_executor env)

-- What `useRoutesProcess` hands to the page.
pub data PageCall : Type 0 where
  load_page : PageCall
  save_page : RouteDraft → PageCall
  toggle_page : Text → Bool → PageCall

module _ {S : Type 0} (gateway_at : Ambient → RouteGateway S) where
  unfoldable pub call : Ambient → PageCall → Action (S × RoutesState) (Unit {0})
  unfolding load save toggle
  call env load_page = load (gateway_at env) true
  call env (save_page draft) = save (gateway_at env) draft
  call env (toggle_page id enabled) = toggle (gateway_at env) id enabled

  -- The answers of the calls, and what they leave.
  unfoldable pub calls :
      List (Ambient × PageCall) → S × RoutesState → List (Result (Unit {0})) × (S × RoutesState)
  unfolding call
  calls [] w = ([], w)
  calls ((env, c) ∷ cs) w =
      let (answer, w1) = call env c w in let (answers, w2) = calls cs w1 in (answer ∷ answers, w2)

  -- The effect of the hook comes before the calls.
  unfoldable pub use_routes_process :
      Ambient
      → List (Ambient × PageCall)
      → S × RoutesState
      → List (Result (Unit {0})) × (S × RoutesState)
  unfolding calls call
  use_routes_process env cs w = calls ((env, load_page) ∷ cs) w
