-- ===== src/Remote/Mock.antt =====
-- apps/web/src/adapters/MockExecutor.ts. Its state is the field `routes`.
use nginx_admin.Common.{Bool, Option, none, some, List, [], ◌∷◌, ◌++◌, Text}
use nginx_admin.Common.Keyed.{find_key, remove_key, replace_key}
use nginx_admin.Effects.{error, Action, ok, fail}
use nginx_admin.Remote.Types.{Route, RouteDraft, RouteExecutor, id_of}
use nginx_admin.Remote.Drafts.{Ambient, route_of_draft, toggled, listed, not_found}

unfoldable pub list : Option Bool → Action (List Route) (List Route)
unfolding listed
list include_disabled routes = (ok (listed include_disabled routes), routes)

unfoldable pub save : Ambient → RouteDraft → Action (List Route) Route
unfolding route_of_draft remove_key
save env draft routes =
    let route = route_of_draft env draft in
    (ok route, remove_key id_of route.id routes ++ route ∷ [])

unfoldable pub toggle : Ambient → Text → Bool → Action (List Route) Route
unfolding toggled find_key replace_key
toggle env id enabled routes = elim (find_key id_of id routes) [
  | none ↦ (fail (error (not_found id)), routes)
  | some current ↦
      let route = toggled env enabled current in (ok route, replace_key id_of id route routes)
]

-- The executor at one moment's uuid and time.
abbrev pub mock_executor : Ambient → RouteExecutor (List Route)
mock_executor env = record {
  routes_list = list;
  routes_save = save env;
  routes_toggle = toggle env;
}
