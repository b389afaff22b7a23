-- ===== src/Examples/Routes.antt =====
-- Examples on the use cases on routes.
use nginx_admin.Common.{
  false, ◌≡◌, ◌⊎◌, ◌===◌, if◌then◌else◌, refl, true, none, some, List, [], ◌∷◌, Text, text,
}
use nginx_admin.Zod.{Issue}
use nginx_admin.Effects.{Failure, Action, Result, ok, fail, error}
use nginx_admin.Entities.{Route}
use nginx_admin.Entities.Schemas.{schemas}
use nginx_admin.Routes.Repository.{RouteMap}
use nginx_admin.Routes.Adapter.{create_route_repository_adapter, map_get, map_set, adapter-IsLawful}
use nginx_admin.Routes.UseCases.{
  Creation, set_port, new_route, create_route, update_route, toggle_route_status, touched,
}
use nginx_admin.Routes.Accepted.{Accepted}
use nginx_admin.Routes.Outcomes.{
  Saves, Refused, checked, stamped, create_route-cases, update_route-cases,
}
use nginx_admin.Routes.Updated.{Updated}
use nginx_admin.Routes.Toggle.{turned, toggle_route_status-Saves, toggle-toggle}
use nginx_admin.Routes.History.{
  Call, create, update, toggle, perform_all, IsSound, perform_all-IsSound,
}
use nginx_admin.Routes.Slice.{RoutesState}
use nginx_admin.Routes.Operations.{reset}
use nginx_admin.Routes.Operations.Outcome
use nginx_admin.Routes.Operations.Outcome.{toggling, success_of, calls, Told, perform-Told}
use nginx_admin.Examples.Samples.{zod, site, parsed_site}
use nginx_admin.Examples.Entities.{site_parses}

abbrev zod_message : Issue → List Issue → Text
zod_message i is = i.message

abbrev store : RouteMap
store = (text "r1", site) ∷ []

abbrev birth : Creation
birth = record { id = text "route_1_a"; created_at = 1000; updated_at = 1000 }

site_found : map_get (text "r1") store ≡ some site
unfolding map_get ◌===◌
site_found = refl

site-Accepted : Accepted zod site
site-Accepted = (parsed_site, site_parses)

empty-IsSound : IsSound zod zod_message create_route_repository_adapter map_get adapter-IsLawful []
unfolding map_get
empty-IsSound = record { entry = λ k r e. cc }

abbrev history : List Call
history =
    create birth site
    ∷ toggle 2000 (text "route_1_a")
    ∷ update 3000 (text "nope") (set_port 81 ∷ [])
    ∷ []

perform_all-IsSound_example :
    IsSound zod zod_message create_route_repository_adapter map_get adapter-IsLawful
      (perform_all zod zod_message create_route_repository_adapter history [])
perform_all-IsSound_example =
    perform_all-IsSound zod zod_message create_route_repository_adapter map_get adapter-IsLawful
      history [] empty-IsSound

abbrev made : Result Text × RouteMap
made = create_route zod zod_message create_route_repository_adapter birth site store

create_route-cases_example :
    ((checked site ≡ true)
      × Accepted zod (stamped birth site)
      × (made.0 ≡ ok birth.id)
      × ((k : Text)
          → map_get k made.1
            ≡ (if birth.id === k then some (stamped birth site) else map_get k store)))
    ⊎ ((checked site ≡ true)
        × Refused zod zod_message create_route_repository_adapter map_get adapter-IsLawful
            (stamped birth site)
            made
            store)
    ⊎ ((checked site ≡ false) × (e : Failure) × (made ≡ (fail e, store)))
create_route-cases_example =
    create_route-cases zod zod_message create_route_repository_adapter map_get adapter-IsLawful
      birth site store

abbrev changed : Result (Unit {0}) × RouteMap
changed =
    update_route zod zod_message create_route_repository_adapter 5 (text "r1") (set_port 443 ∷ [])
      store

update_route-cases_example :
    ((map_get (text "r1") store ≡ none)
      × (changed ≡ (fail (error (text "Route not found")), store)))
    ⊎ ((r : Route) × (u : Route) × (map_get (text "r1") store ≡ some r)
        × Updated 5 (set_port 443 ∷ []) r u
        × ((Accepted zod u
              × Saves zod zod_message create_route_repository_adapter map_get adapter-IsLawful tt u
                  store changed)
            ⊎ Refused zod zod_message create_route_repository_adapter map_get adapter-IsLawful u
                changed store))
update_route-cases_example =
    update_route-cases zod zod_message create_route_repository_adapter map_get adapter-IsLawful 5
      (text "r1") (set_port 443 ∷ []) store

toggle_route_status-Saves_example :
    Saves zod zod_message create_route_repository_adapter map_get adapter-IsLawful tt
      (turned 7 site)
      store
      (toggle_route_status zod zod_message create_route_repository_adapter 7 (text "r1") store)
toggle_route_status-Saves_example =
    toggle_route_status-Saves zod zod_message create_route_repository_adapter map_get
      adapter-IsLawful 7 (text "r1") site store site_found site-Accepted

toggle-toggle_example :
    map_get
      (text "r1")
      (toggle_route_status zod zod_message create_route_repository_adapter 8
        (text "r1")
        (toggle_route_status zod zod_message create_route_repository_adapter 7
          (text "r1")
          store).1).1
    ≡ some (record site { metadata = touched 8 site.metadata })
toggle-toggle_example =
    toggle-toggle zod zod_message create_route_repository_adapter map_get adapter-IsLawful 7 8
      (text "r1") site store refl site_found site-Accepted

-- `createRoute` stores the certificate of a route without SSL, which the schema drops.
abbrev plain_site : Route
plain_site = record site { ssl_certificate = some (text "/etc/ssl/a.pem") }

create_keeps_certificate :
    map_get
      (text "route_1_a")
      (create_route zod zod_message create_route_repository_adapter birth plain_site []).1
    ≡ some (new_route birth plain_site)
unfolding create_route map_get map_set schemas
create_keeps_certificate = refl

abbrev shown : RoutesState
shown = record {
  routes = store;
  current_route_id = some (text "r1");
  is_loading = false;
  error = none;
}

abbrev no_load : Action RouteMap (Unit {0})
no_load s = (ok tt, s)

perform-Told_example :
    ((Outcome.perform zod zod_message create_route_repository_adapter no_load
        (toggling 9 (text "nope"))
        (store, reset)).1.0
      ≡ (calls zod zod_message create_route_repository_adapter no_load
          (toggling 9 (text "nope"))
          store).1)
    × ((Outcome.perform zod zod_message create_route_repository_adapter no_load
          (toggling 9 (text "nope"))
          (store, reset)).1.1.loading
        ≡ false)
    × Told
        (success_of (toggling 9 (text "nope")))
        (calls zod zod_message create_route_repository_adapter no_load
          (toggling 9 (text "nope"))
          store).0
        (Outcome.perform zod zod_message create_route_repository_adapter no_load
          (toggling 9 (text "nope"))
          (store, reset)).0
        (Outcome.perform zod zod_message create_route_repository_adapter no_load
          (toggling 9 (text "nope"))
          (store, reset)).1.1
perform-Told_example =
    perform-Told zod zod_message create_route_repository_adapter no_load (toggling 9 (text "nope"))
      store reset
