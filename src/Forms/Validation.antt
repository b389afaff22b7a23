-- ===== src/Forms/Validation.antt =====
-- packages/core/src/useCases/routeForm.ts
pub mod Filled
use nginx_admin.Common.{
  ℕ, ◌≡◌, ◌↔◌, refl, Bool, true, false, not, ◌&&◌, ◌||◌, Option, none, some, List, [], ◌∷◌, ◌++◌,
  Text, text, ◌==◌, if◌then◌else◌, truthy, or_else, join, set, remove_at,
}
use nginx_admin.Common.Keyed.{upsert_key}
use nginx_admin.Zod.{Issue, ParseResult, success, failure, Zod}
use nginx_admin.Entities.{LocationConfig}
use nginx_admin.Entities.Primitives.{domain_schema, port_schema, unix_path_schema, url_path_schema}
use nginx_admin.Entities.Schemas.{location_schema}
use nginx_admin.Forms.Drafts.{PartialRoute, PartialLocation}

-- `Record<string, string>`
abbrev pub Errors : Type 0
Errors = List (Text × Text)

abbrev field_of : Text × Text → Text
field_of e = e.0

-- `errors[key] = message`
unfoldable pub set_error : Text → Text → Errors → Errors
unfolding upsert_key
set_error key message errors = upsert_key field_of key (key, message) errors

abbrev pub invalid_text : (Text → Bool) → Option Text → Bool
invalid_text schema none = true
invalid_text schema (some s) = not (truthy s) || not (schema s)

abbrev pub invalid_port : Option ℕ → Bool
invalid_port none = true
invalid_port (some n) = n == 0 || not (port_schema n)

-- The keys are distinct: an error is a property added at the end.
abbrev pub error_if : Bool → Text → Text → Errors → Errors
error_if b key message errors = if b then (key, message) ∷ errors else errors

unfoldable pub validate_form : PartialRoute → Errors
validate_form form_data =
    error_if (invalid_text domain_schema form_data.domain) (text "domain")
      (text "Invalid domain format")
      (error_if (invalid_port form_data.port) (text "port")
        (text "Port must be between 1 and 65535")
        (error_if (invalid_text unix_path_schema form_data.root) (text "root")
          (text "Invalid path format") []))

-- `issue.path.join(".") || "location"`
abbrev pub issue_key : Issue → Text
issue_key i = let key = join (text ".") i.path in if truthy key then key else text "location"

unfoldable pub add_issues : List Issue → Errors → Errors
unfolding set_error join
add_issues [] errors = errors
add_issues (i ∷ is) errors = add_issues is (set_error (issue_key i) i.message errors)

abbrev pub add_failure : ParseResult LocationConfig → Errors → Errors
add_failure (success l) errors = errors
add_failure (failure i is) errors = add_issues (i ∷ is) errors

-- For a location with a path.
unfoldable pub validate_location : Zod → LocationConfig → Errors
unfolding add_issues
validate_location zod location = add_failure (location_schema zod location) (
    error_if (not (truthy location.path) || not (url_path_schema location.path)) (text "path")
      (text "Invalid URL path format") [])

-- `{ path: "/", ...locationData }`: a property that is present and undefined hides the default,
-- but the form never makes one of `path`.
unfoldable pub create_location : PartialLocation → LocationConfig
create_location location_data = record {
  path = or_else location_data.path (text "/");
  proxy_pass = location_data.proxy_pass;
  try_files = location_data.try_files;
  index = location_data.index;
  extra_directives = location_data.extra_directives;
}

unfoldable pub add_location_to_route : List LocationConfig → LocationConfig → List LocationConfig
add_location_to_route locations location = locations ++ location ∷ []

-- `next[index] = location` at an index of the array; past its end it would leave holes.
unfoldable pub update_location_in_route :
    List LocationConfig → ℕ → LocationConfig → List LocationConfig
update_location_in_route locations index location = set locations index location

unfoldable pub remove_location : List LocationConfig → ℕ → List LocationConfig
remove_location locations index = remove_at locations index
