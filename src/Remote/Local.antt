-- ===== src/Remote/Local.antt =====
-- apps/desktop/src/renderer/adapters/LocalRouteExecutor.ts. Its state is the renderer's storage.
pub mod Refines
use nginx_admin.Common.{Bool, Option, none, some, List, [], ◌∷◌, ◌++◌, Text, if◌then◌else◌}
use nginx_admin.Common.Keyed.{find_key, remove_key, replace_key}
use nginx_admin.Secrets.{redact_potential_secrets}
use nginx_admin.Effects.{error, Action, ok, fail}
use nginx_admin.Remote.Types.{Route, RouteDraft, RouteExecutor, id_of}
use nginx_admin.Remote.Drafts.{Ambient, route_of_draft, toggled, listed, not_found}

-- The JSON text in the storage, by the routes that it denotes: `absent` also stands for an empty
-- text, and `corrupt` for one that is no JSON.
pub data Stored : Type 0 where
  absent corrupt : Stored
  saved : List Route → Stored

pub record Renderer : Type 0 where
  pub has_window : Bool
  pub stored : Stored

-- `sanitizeForJson` on a route: no property name is sensitive, and each text is redacted.
unfoldable pub sanitize_route : Route → Route
sanitize_route r = record {
  id = redact_potential_secrets r.id;
  host = redact_potential_secrets r.host;
  destination = redact_potential_secrets r.destination;
  enabled = r.enabled;
  updated_at = redact_potential_secrets r.updated_at;
}

unfoldable pub sanitize_routes : List Route → List Route
unfolding sanitize_route
sanitize_routes [] = []
sanitize_routes (r ∷ rs) = sanitize_route r ∷ sanitize_routes rs

abbrev pub routes_in : Stored → List Route
routes_in absent = []
routes_in corrupt = []
routes_in (saved routes) = routes

unfoldable pub load_routes : Renderer → List Route
load_routes s = if s.has_window then routes_in s.stored else []

unfoldable pub save_routes : List Route → Renderer → Renderer
unfolding sanitize_routes
save_routes routes s =
    if s.has_window then record s { stored = saved (sanitize_routes routes) } else s

unfoldable pub list : Option Bool → Action Renderer (List Route)
unfolding listed load_routes
list include_disabled s = (ok (listed include_disabled (load_routes s)), s)

unfoldable pub save : Ambient → RouteDraft → Action Renderer Route
unfolding route_of_draft load_routes save_routes remove_key
save env draft s =
    let route = route_of_draft env draft in
    (ok route, save_routes (remove_key id_of route.id (load_routes s) ++ route ∷ []) s)

unfoldable pub toggle : Ambient → Text → Bool → Action Renderer Route
unfolding toggled load_routes save_routes find_key replace_key
toggle env id enabled s = elim (find_key id_of id (load_routes s)) [
  | none ↦ (fail (error (not_found id)), s)
  | some current ↦
      let route = toggled env enabled current in
      (ok route, save_routes (replace_key id_of id route (load_routes s)) s)
]

-- The executor at one moment's uuid and time.
abbrev pub local_executor : Ambient → RouteExecutor Renderer
local_executor env = record {
  routes_list = list;
  routes_save = save env;
  routes_toggle = toggle env;
}
