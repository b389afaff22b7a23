-- ===== src/Preview.antt =====
-- packages/core/src/services/ConfigGenerator.ts, and the preview of the form in
-- apps/web/src/processes/useRoutePreview.ts.
pub mod Layout
use nginx_admin.Common.{
  ℕ, zero, suc, ltb, Bool, true, false, ◌&&◌, ◌==◌, Option, none, some, List, [], ◌∷◌, ◌++◌, Text,
  text, map, keep, if◌then◌else◌, or_else, truthy, trim, trim_end, join, decimal,
}
use nginx_admin.Entities.{LocationConfig, AdvancedConfig, Route}

-- `"    ".repeat(level)`
abbrev pub spaces : ℕ → Text
spaces zero = []
spaces (suc n) = text "    " ++ spaces n

unfoldable pub indent : List Text → ℕ → Text
unfolding join
indent lines level = join (10 ∷ []) (map (λ line. spaces level ++ line) (keep truthy lines))

-- `name value;`
abbrev pub directive : Text → Text → Text
directive name value = name ++ (text " " ++ (value ++ text ";"))

-- `${value}`
abbrev pub shown : Option Text → Text
shown value = or_else value (text "undefined")

abbrev pub truthy_option : Option Text → Bool
truthy_option none = false
truthy_option (some s) = truthy s

abbrev pub when_set : Text → Option Text → List Text
when_set name value = if truthy_option value then directive name (shown value) ∷ [] else []

abbrev pub trimmed : Option Text → List Text
trimmed none = []
trimmed (some s) = if truthy s then trim s ∷ [] else []

unfoldable pub render_location_block : LocationConfig → Text
unfolding indent join trim
render_location_block loc = join (10 ∷ []) (
    (text "    location " ++ (loc.path ++ text " {"))
    ∷ indent
        (when_set (text "proxy_pass") loc.proxy_pass
          ++ (when_set (text "try_files") loc.try_files
              ++ (when_set (text "index") loc.index ++ trimmed loc.extra_directives)))
        2
    ∷ text "    }"
    ∷ [])

abbrev pub base_directives : Route → List Text
unfolding decimal
base_directives route =
    directive (text "listen") (decimal route.port ++ (if route.ssl then text " ssl" else []))
    ∷ directive (text "server_name") route.domain
    ∷ directive (text "root") route.root
    ∷ []

abbrev pub ssl_block : Route → List Text
unfolding indent
ssl_block route =
    if route.ssl && truthy_option route.ssl_certificate && truthy_option route.ssl_certificate_key
    then []
      ∷ indent
          (directive (text "ssl_certificate") (shown route.ssl_certificate)
            ∷ directive (text "ssl_certificate_key") (shown route.ssl_certificate_key)
            ∷ [])
          1
      ∷ []
    else []

abbrev pub advanced_block : Option AdvancedConfig → List Text
unfolding indent
advanced_block none = []
advanced_block (some adv) =
    []
    ∷ indent
        (directive (text "client_max_body_size") adv.client_max_body_size
          ∷ directive (text "keepalive_timeout") adv.keepalive_timeout
          ∷ ((if adv.gzip
                then text "gzip on;" ∷ directive (text "gzip_types") (shown adv.gzip_types) ∷ []
                else [])
              ++ (if adv.caching
                  then directive (text "proxy_cache_valid") (shown adv.cache_valid) ∷ []
                  else [])))
        1
    ∷ []

abbrev pub rendered : List LocationConfig → List Text
unfolding render_location_block
rendered [] = []
rendered (loc ∷ locations) = render_location_block loc ∷ [] ∷ rendered locations

abbrev pub locations_block : List LocationConfig → List Text
unfolding render_location_block
locations_block [] = []
locations_block (loc ∷ locations) = [] ∷ rendered (loc ∷ locations)

-- The lines before the closing brace.
unfoldable pub config_lines : Route → List Text
unfolding decimal indent render_location_block
config_lines route =
    text "server {"
    ∷ indent (base_directives route) 1
    ∷ (ssl_block route ++ (advanced_block route.advanced ++ locations_block route.locations))

-- `replace(/\n{3,}/g, "\n\n")`: of a run of line feeds the first two stay. The number counts those
-- that the run has had.
unfoldable pub squeeze : ℕ → Text → Text
squeeze n [] = []
squeeze n (c ∷ s) =
    if c == 10 then (if ltb n 2 then 10 ∷ squeeze (suc n) s else squeeze n s) else c ∷ squeeze 0 s

unfoldable pub generate_config_preview : Route → Text
unfolding config_lines squeeze join trim_end
generate_config_preview route =
    trim_end (squeeze 0 (join (10 ∷ []) (config_lines route ++ text "}" ∷ []))) ++ 10 ∷ []

-- `useRoutePreview`, for what `RouteSchema.parse` makes of the values of the form.
unfoldable pub route_preview : Option Route → Text
unfolding generate_config_preview
route_preview none = text "# Ошибка конфигурации"
route_preview (some route) = generate_config_preview route
