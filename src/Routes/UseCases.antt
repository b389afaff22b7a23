-- ===== src/Routes/UseCases.antt =====
-- packages/core/src/useCases/routes.ts
use nginx_admin.Common.{ℕ, Bool, not, Option, none, some, List, [], ◌∷◌, Text, text, if◌then◌else◌}
use nginx_admin.Zod.{Issue, ParseResult, success, failure, Zod}
use nginx_admin.Effects.{error, Action, pure, throw, ◌>>=◌, ◌>>◌}
use nginx_admin.Entities.{LocationConfig, AdvancedConfig, Metadata, Route}
use nginx_admin.Entities.Primitives.{domain_schema, port_schema, unix_path_schema}
use nginx_admin.Entities.Schemas.{route_schema}
use nginx_admin.Routes.Repository.{RouteRepository}

-- What `createRoute` reads of its environment: the id made of the time and a random number, and
-- the two times that it takes.
pub record Creation : Type 0 where
  pub id : Text
  pub created_at : ℕ
  pub updated_at : ℕ

-- An own property of `Partial<Omit<Route, "id">>`.
pub data Update : Type 0 where
  set_domain set_root : Text → Update
  set_port : ℕ → Update
  set_enabled set_ssl : Bool → Update
  set_ssl_certificate set_ssl_certificate_key set_proxy_pass : Option Text → Update
  set_locations : List LocationConfig → Update
  set_advanced : Option AdvancedConfig → Update
  set_metadata : Option Metadata → Update

abbrev pub assign : Update → Route → Route
assign (set_domain v) r = record r { domain = v }
assign (set_root v) r = record r { root = v }
assign (set_port v) r = record r { port = v }
assign (set_enabled v) r = record r { enabled = v }
assign (set_ssl v) r = record r { ssl = v }
assign (set_ssl_certificate v) r = record r { ssl_certificate = v }
assign (set_ssl_certificate_key v) r = record r { ssl_certificate_key = v }
assign (set_proxy_pass v) r = record r { proxy_pass = v }
assign (set_locations v) r = record r { locations = v }
assign (set_advanced v) r = record r { advanced = v }
assign (set_metadata v) r = record r { metadata = v }

-- `{ ...existing, ...updates }`
unfoldable pub assign_all : List Update → Route → Route
assign_all [] r = r
assign_all (u ∷ us) r = assign_all us (assign u r)

-- `existing.metadata ? { ...existing.metadata, updatedAt: new Date() } : undefined`
abbrev pub touched : ℕ → Option Metadata → Option Metadata
touched now none = none
touched now (some m) = some (record m { updated_at = now })

unfoldable pub updated_route : ℕ → List Update → Route → Route
unfolding assign_all
updated_route now updates existing = record (assign_all updates existing) {
  metadata = touched now existing.metadata;
}

-- The route that `createRoute` builds; the id and the metadata of `data` do not count.
unfoldable pub new_route : Creation → Route → Route
new_route env route_data = record route_data {
  id = env.id;
  metadata = some (record {
    created_at = env.created_at;
    updated_at = env.updated_at;
    created_by = text "system";
    tags = [];
  });
}

-- `zod_message` is the message of a `ZodError`.
module _ {S : Type 0} (zod : Zod) (zod_message : Issue → List Issue → Text) where
  -- `RouteSchema.parse(route)` for its exception.
  abbrev pub parse_or_throw : ParseResult Route → Action S (Unit {0})
  parse_or_throw (success r) = pure tt
  parse_or_throw (failure i is) = throw (error (zod_message i is))

  module _ (repository : RouteRepository S) where
    unfoldable pub save_parsed : Route → Action S (Unit {0})
    save_parsed route = parse_or_throw (route_schema zod route) >> repository.save route

    unfoldable pub create_checked : Creation → Route → Action S Text
    unfolding save_parsed new_route
    create_checked env route_data = do save_parsed (new_route env route_data); pure env.id

    unfoldable pub create_route : Creation → Route → Action S Text
    unfolding create_checked
    create_route env route_data =
        if not (domain_schema route_data.domain)
        then throw (error (text "Invalid domain format"))
        else if not (port_schema route_data.port)
        then throw (error (text "Port must be between 1 and 65535"))
        else if not (unix_path_schema route_data.root)
        then throw (error (text "Invalid path format"))
        else create_checked env route_data

    abbrev pub when_found : Option Route → (Route → Action S (Unit {0})) → Action S (Unit {0})
    when_found none k = throw (error (text "Route not found"))
    when_found (some r) k = k r

    unfoldable pub update_route : ℕ → Text → List Update → Action S (Unit {0})
    unfolding save_parsed updated_route
    update_route now id updates = do
      existing ← repository.find_by_id id
      when_found existing (λ r. save_parsed (updated_route now updates r))

    unfoldable pub toggle_route_status : ℕ → Text → Action S (Unit {0})
    unfolding update_route
    toggle_route_status now id = do
      route ← repository.find_by_id id
      when_found route (λ r. update_route now id (set_enabled (not r.enabled) ∷ []))
