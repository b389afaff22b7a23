-- ===== src/Routes/Adapter.antt =====
-- packages/shared/src/store/adapters/RouteRepositoryAdapter.ts: a repository over the routes of a
-- store.
use nginx_admin.Common.{
  ◌≡◌, refl, Option, none, some, List, [], ◌∷◌, Text, ◌===◌, if◌then◌else◌, arith,
}
use nginx_admin.Common.Keyed.{
  find_key, remove_key, upsert_key, find_key-upsert_key, find_key-remove_key,
}
use nginx_admin.Effects.{ok}
use nginx_admin.Entities.{Route}
use nginx_admin.Routes.Repository.{RouteMap, RouteRepository, IsLawful}

abbrev pub key_of : Text × Route → Text
key_of e = e.0

abbrev pub route_in : Option (Text × Route) → Option Route
route_in none = none
route_in (some e) = some e.1

-- `Array.from(routes.values())`
abbrev pub values : RouteMap → List Route
values [] = []
values (e ∷ es) = e.1 ∷ values es

-- `map.get(id)`, `map.set(route.id, route)`, `map.delete(id)`
unfoldable pub map_get : Text → RouteMap → Option Route
unfolding find_key
map_get id m = route_in (find_key key_of id m)

unfoldable pub map_set : Route → RouteMap → RouteMap
unfolding upsert_key
map_set r m = upsert_key key_of r.id (r.id, r) m

unfoldable pub map_delete : Text → RouteMap → RouteMap
unfolding remove_key
map_delete id m = remove_key key_of id m

abbrev pub create_route_repository_adapter : RouteRepository RouteMap
create_route_repository_adapter = record {
  find_all = λ m. (ok (values m), m);
  find_by_id = λ id m. (ok (map_get id m), m);
  save = λ r m. (ok tt, map_set r m);
  delete = λ id m. (ok tt, map_delete id m);
  save_all = λ routes m. (ok tt, routes);
  load_all = λ m. (ok m, m);
}

pub map_get-map_set :
    (r : Route) (m : RouteMap) (k : Text)
    → map_get k (map_set r m) ≡ (if r.id === k then some r else map_get k m)
unfolding map_get map_set
map_get-map_set r m k = ground (arith, find_key-upsert_key key_of k (r.id, r) m)

pub map_get-map_delete :
    (id : Text) (m : RouteMap) (k : Text)
    → map_get k (map_delete id m) ≡ (if id === k then none else map_get k m)
unfolding map_get map_delete
map_get-map_delete id m k = ground (arith, find_key-remove_key key_of k id m)

-- Over any contents of the store the adapter is a repository: `findById` reads the map of the store
-- and changes nothing, and `save` and `delete` never fail, change the entry of their route and no
-- other.
pub adapter-IsLawful : IsLawful create_route_repository_adapter map_get
adapter-IsLawful = record {
  find_by_id_lem = λ id m. refl;
  save_succeeds = λ r m. refl;
  view-save = map_get-map_set;
  delete_succeeds = λ id m. refl;
  view-delete = map_get-map_delete;
}
