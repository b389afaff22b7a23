-- ===== src/Forms/Store.antt =====
-- packages/shared/src/store/slices/routeFormSlice.ts
pub mod Redacted
pub mod Typed
pub mod Editing
use nginx_admin.Common.{
  ℕ, Bool, true, false, Option, none, some, List, [], ◌∷◌, ◌++◌, Text, text, if◌then◌else◌, or_else,
  get_elem?, set, remove_at, is_some, truthy,
}
use nginx_admin.Entities.{LocationConfig, Metadata}
use nginx_admin.Forms.Drafts.{
  PartialRoute, PartialLocation, PartialAdvanced, sanitize_partial_route, sanitize_partial_location,
  sanitize_location, sanitize_advanced,
}
pub use nginx_admin.Forms.Fields.{
  FormState, initial_advanced, initial_route_form, initial_location_form, initial_form, FieldValue,
  id, domain, root, port, enabled, ssl, ssl_certificate, ssl_certificate_key, proxy_pass, locations,
  advanced, metadata, assign_field, field_name,
}
use nginx_admin.Forms.Validation.{Errors, set_error, validate_form, create_location}

unfoldable pub set_field : FieldValue → FormState → FormState
unfolding sanitize_partial_route set_error
set_field value s = record s {
  form_data = sanitize_partial_route (assign_field value s.form_data);
  validation_errors = set_error (field_name value) [] s.validation_errors;
}

abbrev pub no_settings : PartialAdvanced
no_settings = record {
  client_max_body_size = none;
  keepalive_timeout = none;
  gzip = none;
  gzip_types = none;
  caching = none;
  cache_valid = none;
}

-- `change` writes the property of the settings.
unfoldable pub set_advanced_field : (PartialAdvanced → PartialAdvanced) → FormState → FormState
unfolding sanitize_advanced
set_advanced_field change s = record s {
  form_data = record (s.form_data) {
    advanced = some (sanitize_advanced (change (or_else s.form_data.advanced no_settings)));
  };
}

unfoldable pub set_location_field : (PartialLocation → PartialLocation) → FormState → FormState
unfolding sanitize_partial_location
set_location_field change s = record s {
  location_form_data = sanitize_partial_location (change s.location_form_data);
}

abbrev pub partial_of : LocationConfig → PartialLocation
partial_of l = record {
  path = some l.path;
  proxy_pass = l.proxy_pass;
  try_files = l.try_files;
  index = l.index;
  extra_directives = l.extra_directives;
}

abbrev pub locations_of : FormState → List LocationConfig
locations_of s = or_else s.form_data.locations []

abbrev pub location_at : Option ℕ → List LocationConfig → Option LocationConfig
location_at none ls = none
location_at (some i) ls = get_elem? ls i

abbrev pub form_for : Option LocationConfig → PartialLocation
form_for none = initial_location_form
form_for (some l) = sanitize_partial_location (partial_of l)

unfoldable pub open_location_modal : Option ℕ → FormState → FormState
unfolding sanitize_partial_location
open_location_modal index s = record s {
  is_location_modal_open = true;
  editing_location_index = index;
  location_form_data = form_for (location_at index (locations_of s));
}

unfoldable pub close_location_modal : FormState → FormState
close_location_modal s = record s {
  is_location_modal_open = false;
  editing_location_index = none;
  location_form_data = initial_location_form;
}

-- `{ ...state.formData, locations }`
abbrev pub with_locations : List LocationConfig → FormState → PartialRoute
with_locations ls s = record (s.form_data) { locations = some ls }

unfoldable pub add_location : FormState → FormState
unfolding sanitize_partial_route create_location
add_location s = record s {
  form_data =
      sanitize_partial_route
        (with_locations (locations_of s ++ create_location s.location_form_data ∷ []) s);
  is_location_modal_open = false;
  location_form_data = initial_location_form;
}

-- The write happens only at an index of the array.
abbrev pub replaced : Option ℕ → LocationConfig → List LocationConfig → List LocationConfig
replaced none l ls = ls
replaced (some i) l ls = set ls i l

unfoldable pub update_location : FormState → FormState
unfolding sanitize_partial_route create_location
update_location s = record s {
  form_data = sanitize_partial_route (
      with_locations
        (replaced s.editing_location_index (create_location s.location_form_data) (locations_of s))
        s);
  is_location_modal_open = false;
  editing_location_index = none;
  location_form_data = initial_location_form;
}

unfoldable pub delete_location : ℕ → FormState → FormState
unfolding sanitize_partial_route
delete_location index s = record s {
  form_data = sanitize_partial_route (with_locations (remove_at (locations_of s) index) s);
}

unfoldable pub reset_form : FormState → FormState
reset_form s = record s {
  form_data = initial_route_form;
  is_editing = false;
  validation_errors = [];
}

abbrev pub names_route : Option Text → Bool
names_route none = false
names_route (some s) = truthy s

unfoldable pub set_form_data : PartialRoute → FormState → FormState
unfolding sanitize_partial_route
set_form_data route s = record s {
  form_data = sanitize_partial_route route;
  is_editing = names_route route.id;
  validation_errors = [];
}

abbrev pub is_empty : Errors → Bool
is_empty [] = true
is_empty (e ∷ es) = false

unfoldable pub validate : FormState → Bool × FormState
unfolding validate_form
validate s =
    let errors = validate_form s.form_data in
    (is_empty errors, record s { validation_errors = errors })

pub data FormAction : Type 0 where
  change_field : FieldValue → FormAction
  change_advanced : (PartialAdvanced → PartialAdvanced) → FormAction
  change_location : (PartialLocation → PartialLocation) → FormAction
  open_modal : Option ℕ → FormAction
  close_modal add update reset check : FormAction
  remove : ℕ → FormAction
  fill : PartialRoute → FormAction

unfoldable pub act : FormAction → FormState → FormState
unfolding set_field set_advanced_field set_location_field open_location_modal close_location_modal
    add_location update_location delete_location reset_form set_form_data validate
act (change_field v) s = set_field v s
act (change_advanced change) s = set_advanced_field change s
act (change_location change) s = set_location_field change s
act (open_modal index) s = open_location_modal index s
act close_modal s = close_location_modal s
act add s = add_location s
act update s = update_location s
act (remove index) s = delete_location index s
act reset s = reset_form s
act (fill route) s = set_form_data route s
act check s = (validate s).1

unfoldable pub act_all : List FormAction → FormState → FormState
unfolding act
act_all [] s = s
act_all (a ∷ actions) s = act_all actions (act a s)
