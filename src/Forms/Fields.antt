-- ===== src/Forms/Fields.antt =====
-- packages/shared/src/store/slices/routeFormSlice.ts: the state of the form, its initial values,
-- and the fields that are set.
use nginx_admin.Common.{ℕ, Bool, true, false, Option, none, some, List, [], Text, text}
use nginx_admin.Entities.{LocationConfig, Metadata}
use nginx_admin.Forms.Drafts.{PartialRoute, PartialLocation, PartialAdvanced}
use nginx_admin.Forms.Validation.{Errors}

pub record FormState : Type 0 where
  pub is_editing : Bool
  pub form_data : PartialRoute
  pub is_location_modal_open : Bool
  pub editing_location_index : Option ℕ
  pub location_form_data : PartialLocation
  pub validation_errors : Errors

abbrev pub initial_advanced : PartialAdvanced
initial_advanced = record {
  client_max_body_size = some (text "1m");
  keepalive_timeout = some (text "65s");
  gzip = some true;
  gzip_types = some (text "text/plain text/css application/json");
  caching = some false;
  cache_valid = some (text "5m");
}

abbrev pub initial_route_form : PartialRoute
initial_route_form = record {
  id = none;
  domain = some (text "");
  port = some 80;
  root = some (text "/var/www/html");
  enabled = some true;
  ssl = some false;
  ssl_certificate = none;
  ssl_certificate_key = none;
  proxy_pass = none;
  locations = some [];
  advanced = some initial_advanced;
  metadata = none;
}

abbrev pub initial_location_form : PartialLocation
initial_location_form = record {
  path = some (text "/");
  proxy_pass = none;
  try_files = none;
  index = some (text "index.html");
  extra_directives = some (text "");
}

abbrev pub initial_form : FormState
initial_form = record {
  is_editing = false;
  form_data = initial_route_form;
  is_location_modal_open = false;
  editing_location_index = none;
  location_form_data = initial_location_form;
  validation_errors = [];
}

-- `[field]: value` on a form, and the name of the field.
pub data FieldValue : Type 0 where
  id domain root : Text → FieldValue
  port : ℕ → FieldValue
  enabled ssl : Bool → FieldValue
  ssl_certificate ssl_certificate_key proxy_pass : Option Text → FieldValue
  locations : List LocationConfig → FieldValue
  advanced : Option PartialAdvanced → FieldValue
  metadata : Option Metadata → FieldValue

abbrev pub assign_field : FieldValue → PartialRoute → PartialRoute
assign_field (id v) r = record r { id = some v }
assign_field (domain v) r = record r { domain = some v }
assign_field (root v) r = record r { root = some v }
assign_field (port v) r = record r { port = some v }
assign_field (enabled v) r = record r { enabled = some v }
assign_field (ssl v) r = record r { ssl = some v }
assign_field (ssl_certificate v) r = record r { ssl_certificate = v }
assign_field (ssl_certificate_key v) r = record r { ssl_certificate_key = v }
assign_field (proxy_pass v) r = record r { proxy_pass = v }
assign_field (locations v) r = record r { locations = some v }
assign_field (advanced v) r = record r { advanced = v }
assign_field (metadata v) r = record r { metadata = v }

abbrev pub field_name : FieldValue → Text
field_name (id v) = text "id"
field_name (domain v) = text "domain"
field_name (root v) = text "root"
field_name (port v) = text "port"
field_name (enabled v) = text "enabled"
field_name (ssl v) = text "ssl"
field_name (ssl_certificate v) = text "ssl_certificate"
field_name (ssl_certificate_key v) = text "ssl_certificate_key"
field_name (proxy_pass v) = text "proxy_pass"
field_name (locations v) = text "locations"
field_name (advanced v) = text "advanced"
field_name (metadata v) = text "metadata"
