-- ===== src/CoreStorage.antt =====
-- packages/core/src/repositories/LocalStorageRouteRepository.ts. The JSON text in the storage is
-- modelled by the entries that it denotes. A date becomes a text in it, and the repository does not
-- read the texts back as dates.
pub mod Lookup
use nginx_admin.Common.{Option, none, some, List, [], ◌∷◌, Text, map, to_iso_string}
use nginx_admin.Common.Keyed.{find_key, remove_key, upsert_key}
use nginx_admin.Secrets.{redact_potential_secrets}
use nginx_admin.Effects.{ok}
use nginx_admin.Entities.{Metadata, Route}
use nginx_admin.Forms.Drafts.{redact_all}
use nginx_admin.Routes.Repository.{RouteMap, RouteRepository}
use nginx_admin.Routes.Sanitised.{sanitize_route}

-- What `JSON.parse` gives for the metadata of a route, and for a route, whose other properties
-- stand in `route`.
pub record ParsedMetadata : Type 0 where
  pub created_at : Text
  pub updated_at : Text
  pub created_by : Text
  pub tags : List Text

pub record ParsedRoute : Type 0 where
  pub route : Route
  pub metadata : Option ParsedMetadata

abbrev pub ParsedMap : Type 0
ParsedMap = List (Text × ParsedRoute)

-- The item "nginx_routes": missing or empty, no JSON array of entries, or the entries it denotes.
pub data Item : Type 0 where
  absent corrupt : Item
  stored : ParsedMap → Item

abbrev pub entry_id : {A : Type 0} → Text × A → Text
entry_id e = e.0

abbrev pub entry_value : {A : Type 0} → Option (Text × A) → Option A
entry_value none = none
entry_value (some e) = some e.1

abbrev pub parsed_values : ParsedMap → List ParsedRoute
parsed_values [] = []
parsed_values (e ∷ es) = e.1 ∷ parsed_values es

-- `new Map(entries)`, from the map so far: the last entry of a key counts.
unfoldable pub map_of : ParsedMap → ParsedMap → ParsedMap
unfolding upsert_key
map_of m [] = m
map_of m (e ∷ es) = map_of (upsert_key entry_id e.0 e m) es

unfoldable pub load_all : Item → ParsedMap
unfolding map_of
load_all absent = []
load_all corrupt = []
load_all (stored entries) = map_of [] entries

abbrev pub when_some : {A B : Type 0} → (A → B) → Option A → Option B
when_some f none = none
when_some f (some a) = some (f a)

abbrev pub json_metadata : Metadata → ParsedMetadata
json_metadata m = record {
  created_at = to_iso_string m.created_at;
  updated_at = to_iso_string m.updated_at;
  created_by = m.created_by;
  tags = m.tags;
}

-- A route with dates, as it stands in a JSON text.
unfoldable pub as_json : Route → ParsedRoute
unfolding to_iso_string
as_json r = record {
  route = record r { metadata = none };
  metadata = when_some json_metadata r.metadata;
}

abbrev pub sanitize_parsed_metadata : ParsedMetadata → ParsedMetadata
sanitize_parsed_metadata m = record {
  created_at = redact_potential_secrets m.created_at;
  updated_at = redact_potential_secrets m.updated_at;
  created_by = redact_potential_secrets m.created_by;
  tags = redact_all m.tags;
}

-- `sanitizeForJson` on a route that was loaded: its dates are texts among others.
unfoldable pub sanitize_parsed : ParsedRoute → ParsedRoute
unfolding sanitize_route redact_all
sanitize_parsed p = record {
  route = sanitize_route p.route;
  metadata = when_some sanitize_parsed_metadata p.metadata;
}

-- What a map holds that is written: a route that was loaded, or one with dates.
pub data Held : Type 0 where
  loaded : ParsedRoute → Held
  dated : Route → Held

unfoldable pub written : Held → ParsedRoute
unfolding sanitize_parsed sanitize_route as_json
written (loaded p) = sanitize_parsed p
written (dated r) = as_json (sanitize_route r)

-- `stringifyWithoutSecrets` on an entry: its id is a text among others.
unfoldable pub write_entry : Text × Held → Text × ParsedRoute
unfolding written
write_entry e = (redact_potential_secrets e.0, written e.1)

unfoldable pub write_map : List (Text × Held) → Item
unfolding write_entry
write_map entries = stored (map write_entry entries)

abbrev pub dated_entry : Text × Route → Text × Held
dated_entry e = (e.0, dated e.1)

abbrev pub loaded_entry : Text × ParsedRoute → Text × Held
loaded_entry e = (e.0, loaded e.1)

unfoldable pub save_all : RouteMap → Item → Item
unfolding write_map
save_all routes item = write_map (map dated_entry routes)

unfoldable pub save : Route → Item → Item
unfolding write_map upsert_key load_all
save route item =
    write_map
      (upsert_key entry_id route.id (route.id, dated route) (map loaded_entry (load_all item)))

unfoldable pub find_by_id : Text → Item → Option ParsedRoute
unfolding find_key load_all
find_by_id id item = entry_value (find_key entry_id id (load_all item))

unfoldable pub find_all : Item → List ParsedRoute
unfolding load_all
find_all item = parsed_values (load_all item)

unfoldable pub delete : Text → Item → Item
unfolding write_map remove_key load_all
delete id item = write_map (remove_key entry_id id (map loaded_entry (load_all item)))

-- The repository as the program takes it: `as [string, Route][]` calls what was parsed a route,
-- although its dates are texts. `seen` is the route that the rest of the program sees in it.
abbrev pub local_storage_repository : (ParsedRoute → Route) → RouteRepository Item
local_storage_repository seen = record {
  save = λ r s. (ok tt, save r s);
  find_by_id = λ id s. (ok (when_some seen (find_by_id id s)), s);
  find_all = λ s. (ok (map seen (find_all s)), s);
  delete = λ id s. (ok tt, delete id s);
  save_all = λ m s. (ok tt, save_all m s);
  load_all = λ s. (ok (map (λ e. (e.0, seen e.1)) (load_all s)), s);
}
