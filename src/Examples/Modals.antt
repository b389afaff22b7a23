-- ===== src/Examples/Modals.antt =====
-- Examples on the modals of the page of the routes.
use nginx_admin.Common.{true, false, none, some, List, [], ◌∷◌, Text, text, ◌≡◌, refl, ◌===◌}
use nginx_admin.Zod.{Issue}
use nginx_admin.Routes.Repository.{RouteMap}
use nginx_admin.Routes.Adapter.{map_get, map_set}
use nginx_admin.Routes.UseCases.{Creation, new_route}
use nginx_admin.Routes.Slice.{RoutesState}
use nginx_admin.Routes.Operations.{reset}
use nginx_admin.Entities.{Route}
use nginx_admin.CoreStorage.{ParsedRoute, absent, save_all}
use nginx_admin.Pages.Modal.{closed}
use nginx_admin.Pages.Handlers.{PageState}
use nginx_admin.Pages.Modals.{
  LocationInput, proxy_pass, index, try_files, save_button, save_force_button, force_clicked,
  click_location,
}
use nginx_admin.Pages.Twice.{
  Stores, done_toast, page_repository, page_load, force_clicked-loses_first,
}
use nginx_admin.Pages.Emptied.{type_all, emptied-refused}
use nginx_admin.Examples.Samples.{zod, site, parsed_site, api_location}
use nginx_admin.Examples.Entities.{site_parses}

abbrev zod_message : Issue → List Issue → Text
zod_message i is = i.message

abbrev first_birth : Creation
first_birth = record { id = text "route_1_a"; created_at = 1000; updated_at = 1000 }

abbrev second_birth : Creation
second_birth = record { id = text "route_1_b"; created_at = 1001; updated_at = 1001 }

abbrev no_routes : RoutesState
no_routes = record { routes = []; current_route_id = none; is_loading = false; error = none }

-- A new route in the form, and one of its locations in the modal.
abbrev page : PageState Stores
page = record {
  stores = ((absent, no_routes), reset);
  modal = record closed {
    modal_open = true;
    location_editing = record { index = some 0; value = some api_location };
  };
  form = site;
  is_saving = false;
  is_removing = false;
  is_saving_location = false;
  is_removing_location = false;
  toasts = [];
}

births_differ : (first_birth.id === second_birth.id) ≡ false
unfolding ◌===◌
births_differ = refl

abbrev seen : ParsedRoute → Route
seen p = p.route

abbrev clicked : PageState Stores
clicked =
    force_clicked zod zod_message (page_repository seen []) (page_load seen) first_birth
      second_birth 1000 page

abbrev second_only : RouteMap
second_only = map_set (new_route second_birth parsed_site) []

force_clicked-loses_first_example :
    (clicked.toasts ≡ done_toast ∷ done_toast ∷ [])
    × (clicked.stores.0.0 ≡ save_all second_only absent)
    × (map_get (text "route_1_a") second_only ≡ none)
unfolding map_get
force_clicked-loses_first_example =
    force_clicked-loses_first zod zod_message seen first_birth second_birth 1000 page parsed_site
      refl site_parses births_differ

abbrev inputs : List LocationInput
inputs = index (text "index.html") ∷ try_files (text "$uri") ∷ []

emptied-refused_example :
    ((click_location zod save_button (type_all zod (proxy_pass [] ∷ inputs) page)).form ≡ site)
    × ((click_location zod save_force_button (type_all zod (proxy_pass [] ∷ inputs) page)).form
        ≡ site)
emptied-refused_example = emptied-refused zod inputs page api_location refl refl
