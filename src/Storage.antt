-- ===== src/Storage.antt =====
-- packages/infra/src/repositories/BrowserLocalStorageRouteRepository.ts. The JSON text in the
-- storage is modelled by the routes that it denotes, and the text of an instant by the instant.
pub mod Lookup
use nginx_admin.Common.{ℕ, Option, none, some, List, [], ◌∷◌, Text, or_else, map}
use nginx_admin.Common.Keyed.{find_key, remove_key}
use nginx_admin.Secrets.{redact_potential_secrets}
use nginx_admin.Effects.{Action, ok}
use nginx_admin.Entities.{Metadata, Route}
use nginx_admin.Forms.Drafts.{redact_all}
use nginx_admin.Routes.Repository.{RouteMap, RouteRepository}
use nginx_admin.Routes.Sanitised.{sanitize_route}
use nginx_admin.Routes.Adapter.{map_set, values}

pub record PersistedMetadata : Type 0 where
  pub created_at : Option ℕ
  pub updated_at : Option ℕ
  pub created_by : Text
  pub tags : List Text

-- `PersistedRoute`: a route, with its metadata apart.
pub record PersistedRoute : Type 0 where
  pub route : Route
  pub metadata : Option PersistedMetadata

-- The item of the storage: missing or empty, no JSON array of routes, or the routes it denotes.
pub data Item : Type 0 where
  absent corrupt : Item
  stored : List PersistedRoute → Item

abbrev pub when_some : {A B : Type 0} → (A → B) → Option A → Option B
when_some f none = none
when_some f (some a) = some (f a)

abbrev pub persisted_metadata : Metadata → PersistedMetadata
persisted_metadata m = record {
  created_at = some m.created_at;
  updated_at = some m.updated_at;
  created_by = m.created_by;
  tags = m.tags;
}

unfoldable pub to_persisted_route : Route → PersistedRoute
to_persisted_route r = record {
  route = record r { metadata = none };
  metadata = when_some persisted_metadata r.metadata;
}

abbrev pub revived_metadata : ℕ → PersistedMetadata → Metadata
revived_metadata now m = record {
  created_at = or_else m.created_at now;
  updated_at = or_else m.updated_at now;
  created_by = m.created_by;
  tags = m.tags;
}

unfoldable pub from_persisted_route : ℕ → PersistedRoute → Route
from_persisted_route now p = record (p.route) {
  metadata = when_some (revived_metadata now) p.metadata;
}

abbrev pub sanitized_metadata : PersistedMetadata → PersistedMetadata
sanitized_metadata m = record m {
  created_by = redact_potential_secrets m.created_by;
  tags = redact_all m.tags;
}

-- `sanitizeForJson` on what is written; the text of an instant is no secret.
unfoldable pub sanitize_persisted : PersistedRoute → PersistedRoute
unfolding sanitize_route redact_all
sanitize_persisted p = record {
  route = sanitize_route p.route;
  metadata = when_some sanitized_metadata p.metadata;
}

unfoldable pub serialized : List Route → Item
unfolding sanitize_persisted to_persisted_route
serialized routes = stored (map (λ r. sanitize_persisted (to_persisted_route r)) routes)

abbrev pub id_of : Route → Text
id_of r = r.id

unfoldable pub find_all : ℕ → Item → List Route
unfolding from_persisted_route
find_all now absent = []
find_all now corrupt = []
find_all now (stored ps) = map (from_persisted_route now) ps

-- `new Map(routes.map((route) => [route.id, route]))`, from the map so far.
unfoldable pub map_from : RouteMap → List Route → RouteMap
unfolding map_set
map_from m [] = m
map_from m (r ∷ rs) = map_from (map_set r m) rs

unfoldable pub save : ℕ → Route → Item → Item
unfolding serialized map_from find_all map_set
save now route item = serialized (values (map_set route (map_from [] (find_all now item))))

unfoldable pub find_by_id : ℕ → Text → Item → Option Route
unfolding find_key find_all
find_by_id now id item = find_key id_of id (find_all now item)

unfoldable pub delete : ℕ → Text → Item → Item
unfolding serialized remove_key find_all
delete now id item = serialized (remove_key id_of id (find_all now item))

unfoldable pub save_all : RouteMap → Item → Item
unfolding serialized
save_all routes item = serialized (values routes)

unfoldable pub load_all : ℕ → Item → RouteMap
unfolding map_from find_all
load_all now item = map_from [] (find_all now item)

-- The repository at one moment.
abbrev pub browser_repository : ℕ → RouteRepository Item
browser_repository now = record {
  save = λ r s. (ok tt, save now r s);
  find_by_id = λ id s. (ok (find_by_id now id s), s);
  find_all = λ s. (ok (find_all now s), s);
  delete = λ id s. (ok tt, delete now id s);
  save_all = λ m s. (ok tt, save_all m s);
  load_all = λ s. (ok (load_all now s), s);
}
