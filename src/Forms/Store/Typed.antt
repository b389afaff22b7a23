-- ===== src/Forms/Store/Typed.antt =====
-- The texts in the form after any sequence of actions.
use nginx_admin.Common.{refl, Option, none, some, List, [], ◌∷◌, ◌++◌, remove_at, text}
use nginx_admin.Secrets.{redact_potential_secrets}
use nginx_admin.Entities.{LocationConfig}
use nginx_admin.Forms.Validation.{create_location}
use nginx_admin.Forms.Store.{
  FormState, initial_form, initial_route_form, initial_location_form, initial_advanced, location_at,
  form_for, with_locations, replaced, locations_of, FormAction, change_field, change_advanced,
  change_location, open_modal, close_modal, add, update, reset, check, remove, fill, act, act_all,
}
use nginx_admin.Forms.Store.Redacted.{
  IsRedactedAdvanced, IsRedactedDraft, IsRedactedRoute, IsRedactedForm, draft-IsRedacted,
  advanced-IsRedacted, route-IsRedacted,
}

initial_advanced-IsRedacted : IsRedactedAdvanced initial_advanced
unfolding redact_potential_secrets
initial_advanced-IsRedacted = record {
  client_max_body_size = (text "1m", refl);
  keepalive_timeout = (text "65s", refl);
  gzip_types = (text "text/plain text/css application/json", refl);
  cache_valid = (text "5m", refl);
}

initial_draft-IsRedacted : IsRedactedDraft initial_location_form
unfolding redact_potential_secrets
initial_draft-IsRedacted = record {
  path = (text "/", refl);
  proxy_pass = tt;
  try_files = tt;
  index = (text "index.html", refl);
  extra_directives = ([], refl);
}

initial_route-IsRedacted : IsRedactedRoute initial_route_form
unfolding redact_potential_secrets
initial_route-IsRedacted = record {
  id = tt;
  domain = ([], refl);
  root = (text "/var/www/html", refl);
  ssl_certificate = tt;
  ssl_certificate_key = tt;
  proxy_pass = tt;
  locations = tt;
  advanced = initial_advanced-IsRedacted;
  metadata = tt;
}

form_for-IsRedacted : (o : Option LocationConfig) → IsRedactedDraft (form_for o)
form_for-IsRedacted none = initial_draft-IsRedacted
form_for-IsRedacted (some l) = draft-IsRedacted _

act-IsRedacted : (a : FormAction) (s : FormState) → IsRedactedForm s → IsRedactedForm (act a s)
unfolding act
act-IsRedacted (change_field v) s h = record {
  form_data = route-IsRedacted _;
  location_form_data = h.location_form_data;
}
act-IsRedacted (change_advanced change) s h = record {
  form_data = record {
    id = h.form_data.id;
    domain = h.form_data.domain;
    root = h.form_data.root;
    ssl_certificate = h.form_data.ssl_certificate;
    ssl_certificate_key = h.form_data.ssl_certificate_key;
    proxy_pass = h.form_data.proxy_pass;
    locations = h.form_data.locations;
    advanced = advanced-IsRedacted _;
    metadata = h.form_data.metadata;
  };
  location_form_data = h.location_form_data;
}
act-IsRedacted (change_location change) s h = record {
  form_data = h.form_data;
  location_form_data = draft-IsRedacted _;
}
act-IsRedacted (open_modal index) s h = record {
  form_data = h.form_data;
  location_form_data = form_for-IsRedacted (location_at index (locations_of s));
}
act-IsRedacted close_modal s h = record {
  form_data = h.form_data;
  location_form_data = initial_draft-IsRedacted;
}
act-IsRedacted add s h = record {
  form_data =
      route-IsRedacted
        (with_locations (locations_of s ++ create_location s.location_form_data ∷ []) s);
  location_form_data = initial_draft-IsRedacted;
}
act-IsRedacted update s h = record {
  form_data = route-IsRedacted (
      with_locations
        (replaced s.editing_location_index (create_location s.location_form_data) (locations_of s))
        s);
  location_form_data = initial_draft-IsRedacted;
}
act-IsRedacted (remove index) s h = record {
  form_data = route-IsRedacted (with_locations (remove_at (locations_of s) index) s);
  location_form_data = h.location_form_data;
}
act-IsRedacted reset s h = record {
  form_data = initial_route-IsRedacted;
  location_form_data = h.location_form_data;
}
act-IsRedacted (fill route) s h = record {
  form_data = route-IsRedacted route;
  location_form_data = h.location_form_data;
}
act-IsRedacted check s h = record {
  form_data = h.form_data;
  location_form_data = h.location_form_data;
}

act_all-from :
    (actions : List FormAction) (s : FormState)
    → IsRedactedForm s
    → IsRedactedForm (act_all actions s)
unfolding act_all
act_all-from [] s h = h
act_all-from (a ∷ actions) s h = act_all-from actions (act a s) (act-IsRedacted a s h)

-- Whatever is typed, opened, added, changed and loaded: every text of the form, of its locations
-- and settings, and of the location that is edited, is one that redaction has returned.
pub act_all-IsRedacted : (actions : List FormAction) → IsRedactedForm (act_all actions initial_form)
act_all-IsRedacted actions =
    act_all-from actions initial_form (record {
      form_data = initial_route-IsRedacted;
      location_form_data = initial_draft-IsRedacted;
    })
