-- ===== src/Examples/Forms.antt =====
-- Examples on the form for a route.
use nginx_admin.Common.{◌≡◌, ◌↔◌, none, some, List, [], ◌∷◌, text}
use nginx_admin.Forms.Drafts.{PartialRoute, PartialLocation}
use nginx_admin.Forms.Validation.{validate_form}
use nginx_admin.Forms.Validation.Filled.{IsFilled, validate_form_iff}
use nginx_admin.Forms.Store.{
  FormState, FormAction, change_field, domain, open_modal, add, initial_form, initial_route_form,
  act_all, update_location, set_location_field, open_location_modal,
}
use nginx_admin.Forms.Store.Redacted.{IsRedactedForm}
use nginx_admin.Forms.Store.Typed.{act_all-IsRedacted}
use nginx_admin.Examples.Samples.{api_location}

abbrev filled : PartialRoute
filled = record initial_route_form { domain = some (text "api.example.com") }

validate_form_iff_example : (validate_form filled ≡ []) ↔ IsFilled filled
validate_form_iff_example = validate_form_iff filled

abbrev actions : List FormAction
actions = change_field (domain (text "api.example.com")) ∷ open_modal none ∷ add ∷ []

act_all-IsRedacted_example : IsRedactedForm (act_all actions initial_form)
act_all-IsRedacted_example = act_all-IsRedacted actions

abbrev two_locations : FormState
two_locations = record initial_form {
  form_data = record filled {
    locations = some (api_location ∷ record api_location { path = text "/static" } ∷ []);
  };
}

abbrev retarget : PartialLocation → PartialLocation
retarget l = record l { proxy_pass = some (text "http://localhost:4000") }

abbrev edited : FormState
edited = update_location (set_location_field retarget (open_location_modal (some 0) two_locations))
