-- ===== src/Entities/Schemas.antt =====
-- packages/core/src/entities/types.ts: the schemas of locations, of the advanced settings and of
-- routes, with the bodies of their `superRefine` calls.
use nginx_admin.Common.{
  ℕ, suc, Bool, true, false, not, ◌&&◌, ◌||◌, Option, none, some, List, [], ◌∷◌, ◌++◌, Text, text,
  ◌==◌, ◌===◌, if◌then◌else◌, truthy, trim, join,
}
use nginx_admin.Secrets.{contains_sensitive_directive}
use nginx_admin.Zod.{Issue, ParseResult, Zod, parsed}
use nginx_admin.Entities.Types.{LocationConfig, AdvancedConfig, Route}
use nginx_admin.Entities.Primitives.{
  domain_schema, port_schema, unix_path_schema, url_path_schema, size_unit_schema, time_unit_schema,
  proxy_target_schema, optionally,
}

abbrev pub issue : Text → Text → Issue
issue message path = record { message = message; path = path ∷ [] }

-- Truthiness of an optional text.
abbrev pub is_given : Option Text → Bool
is_given none = false
is_given (some s) = truthy s

-- `s.trim() === ""`
abbrev pub is_blank : Text → Bool
is_blank s = not (truthy (trim s))

abbrev pub text_or_empty : Option Text → Text
text_or_empty none = []
text_or_empty (some s) = s

-- `if (b) ctx.addIssue(i);`
abbrev pub add_issue_if : Bool → Issue → List Issue → List Issue
add_issue_if b i is = if b then i ∷ is else is

-- The `superRefine` of `LocationConfigSchema`.
unfoldable pub refine_location : LocationConfig → LocationConfig × List Issue
refine_location loc = (
  loc,
  add_issue_if (is_given loc.proxy_pass && is_given loc.try_files)
      (issue (text "proxy_pass и try_files не должны использоваться вместе") (text "try_files"))
      (add_issue_if
        (is_given loc.extra_directives
          && contains_sensitive_directive (text_or_empty loc.extra_directives))
        (issue (text "Location directives must not contain credentials or sensitive headers")
          (text "extra_directives"))
        []),
)

abbrev pub location_ok : LocationConfig → Bool
location_ok loc = url_path_schema loc.path && proxy_target_schema loc.proxy_pass

unfoldable pub location_fields : LocationConfig → Option LocationConfig
location_fields loc = if location_ok loc then some loc else none

-- The `superRefine` of `AdvancedConfigSchema`: settings of what is off are dropped.
unfoldable pub refine_advanced : AdvancedConfig → AdvancedConfig × List Issue
refine_advanced adv = (
  record adv {
    gzip_types = if not adv.gzip && is_given adv.gzip_types then none else adv.gzip_types;
    cache_valid = if not adv.caching && is_given adv.cache_valid then none else adv.cache_valid;
  },
  add_issue_if
      (adv.gzip && (not (is_given adv.gzip_types) || is_blank (text_or_empty adv.gzip_types)))
      (issue (text "Необходимо указать gzip_types при включённом gzip") (text "gzip_types"))
      (add_issue_if (adv.caching && not (is_given adv.cache_valid))
        (issue (text "Необходимо указать cache_valid при включённом caching") (text "cache_valid"))
        []),
)

unfoldable pub advanced_fields : AdvancedConfig → Option AdvancedConfig
advanced_fields adv =
    if size_unit_schema adv.client_max_body_size
      && time_unit_schema adv.keepalive_timeout
      && optionally time_unit_schema adv.cache_valid
    then some adv
    else none

-- `paths.indexOf(p)`: a path of the list is found.
abbrev pub index_of : Text → List Text → ℕ
index_of p [] = 0
index_of p (q ∷ qs) = if q === p then 0 else suc (index_of p qs)

-- `paths.filter((p, i) => paths.indexOf(p) !== i)`, from index i on
abbrev pub duplicates_from : List Text → ℕ → List Text → List Text
duplicates_from paths i [] = []
duplicates_from paths i (p ∷ ps) =
    let rest = duplicates_from paths (suc i) ps in if index_of p paths == i then rest else p ∷ rest

unfoldable pub duplicates : List Text → List Text
unfolding ◌===◌
duplicates paths = duplicates_from paths 0 paths

-- The paths of a route's locations.
abbrev pub paths_of : List LocationConfig → List Text
paths_of [] = []
paths_of (l ∷ ls) = l.path ∷ paths_of ls

abbrev pub is_nil {ℓ} : {A : Type ℓ} → List A → Bool
is_nil [] = true
is_nil (x ∷ xs) = false

-- The value half of the `superRefine` of `RouteSchema`: without SSL its files are dropped.
unfoldable pub clear_ssl : Route → Route
clear_ssl route =
    if route.ssl then route else record route { ssl_certificate = none; ssl_certificate_key = none }

-- The issues of the `superRefine` of `RouteSchema`.
unfoldable pub route_issues : Route → List Issue
unfolding duplicates trim
route_issues route =
    add_issue_if
      (route.ssl
        && (not (is_given route.ssl_certificate) || not (is_given route.ssl_certificate_key)))
      (issue (text "SSL включён, но отсутствуют ssl_certificate и/или ssl_certificate_key")
        (text "ssl_certificate"))
      (add_issue_if (is_given route.proxy_pass && not (is_nil route.locations))
        (issue
          (text
            "proxy_pass на уровне server и location-блоки не должны использоваться одновременно")
          (text "proxy_pass"))
        (add_issue_if (not (is_given route.proxy_pass) && is_blank route.root)
          (issue (text "Поле root обязательно, если не указан proxy_pass") (text "root"))
          (add_issue_if (route.port == 443 && not route.ssl)
            (issue (text "Порт 443 требует включённый SSL") (text "ssl"))
            (add_issue_if (route.port == 80 && route.ssl)
              (issue (text "Порт 80 не может использовать SSL") (text "ssl"))
              (add_issue_if (not (is_nil (duplicates (paths_of route.locations))))
                (issue
                  (text "Найдено несколько location с одинаковым путём: "
                    ++ join (text ", ") (duplicates (paths_of route.locations)))
                  (text "locations"))
                [])))))

unfoldable pub refine_route : Route → Route × List Issue
unfolding clear_ssl route_issues
refine_route route = (clear_ssl route, route_issues route)

-- The object of the parsed properties, if each of them parses.
abbrev pub with_fields :
    Route → Bool → Option (List LocationConfig) → Option (Option AdvancedConfig) → Option Route
with_fields route true (some ls) (some adv) = some (record route { locations = ls; advanced = adv })
with_fields route _ _ _ = none

abbrev pub own_fields_ok : Route → Bool
own_fields_ok route =
    domain_schema route.domain
    && (port_schema route.port
        && (unix_path_schema route.root
            && (optionally unix_path_schema route.ssl_certificate
                && (optionally unix_path_schema route.ssl_certificate_key
                    && proxy_target_schema route.proxy_pass))))

abbrev pub with_location :
    Option LocationConfig → Option (List LocationConfig) → Option (List LocationConfig)
with_location (some l) (some ls) = some (l ∷ ls)
with_location _ _ = none

module _ (zod : Zod) where
  unfoldable pub location_schema : LocationConfig → ParseResult LocationConfig
  location_schema = zod.parse_object LocationConfig location_fields refine_location

  unfoldable pub advanced_schema : AdvancedConfig → ParseResult AdvancedConfig
  advanced_schema = zod.parse_object AdvancedConfig advanced_fields refine_advanced

  -- `z.array(LocationConfigSchema)`
  unfoldable pub locations_schema : List LocationConfig → Option (List LocationConfig)
  unfolding location_schema
  locations_schema [] = some []
  locations_schema (l ∷ ls) = with_location (parsed (location_schema l)) (locations_schema ls)

  -- `AdvancedConfigSchema.optional()`
  unfoldable pub optional_advanced : Option AdvancedConfig → Option (Option AdvancedConfig)
  unfolding advanced_schema
  optional_advanced none = some none
  optional_advanced (some adv) = elim (parsed (advanced_schema adv)) [
    | none ↦ none
    | some adv' ↦ some (some adv')
  ]

  unfoldable pub route_fields : Route → Option Route
  unfolding locations_schema optional_advanced
  route_fields route =
      with_fields route (own_fields_ok route) (locations_schema route.locations)
        (optional_advanced route.advanced)

  unfoldable pub route_schema : Route → ParseResult Route
  unfolding route_fields refine_route
  route_schema = zod.parse_object Route route_fields refine_route

-- Names all that a run of a schema computes with.
unfoldable pub schemas : Unit {0}
unfolding domain_schema port_schema unix_path_schema url_path_schema size_unit_schema
    time_unit_schema proxy_target_schema location_fields refine_location advanced_fields
    refine_advanced route_schema location_schema advanced_schema locations_schema
    contains_sensitive_directive
schemas = tt
