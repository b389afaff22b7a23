-- ===== src/Routes/Hooks.antt =====
-- packages/shared/src/store/repositoryHooks.ts: the repository that a component works with. It is
-- made while the component is rendered, and reads the routes of the store as they were then.
use nginx_admin.Effects.{ok}
use nginx_admin.Routes.Repository.{RouteMap, RouteRepository}
use nginx_admin.Routes.Adapter.{values, map_get, map_set, map_delete}
use nginx_admin.Routes.Slice.{RoutesState, save_routes}

module _ {S : Type 0} (repository : RouteRepository S) where
  -- `setState` and `saveRoutes`; the adapter does not wait for the answer.
  unfoldable pub write_routes : RouteMap → S × RoutesState → S × RoutesState
  unfolding save_routes
  write_routes routes (s, st) = (save_routes repository (s, record st { routes = routes })).1

  -- `useRoutesRepository`, with the routes of the last rendering.
  unfoldable pub use_routes_repository : RouteMap → RouteRepository (S × RoutesState)
  unfolding write_routes map_get map_set map_delete
  use_routes_repository rendered = record {
    find_all = λ t. (ok (values rendered), t);
    find_by_id = λ id t. (ok (map_get id rendered), t);
    save = λ r t. (ok tt, write_routes (map_set r rendered) t);
    delete = λ id t. (ok tt, write_routes (map_delete id rendered) t);
    save_all = λ routes t. (ok tt, write_routes routes t);
    load_all = λ t. (ok rendered, t);
  }
