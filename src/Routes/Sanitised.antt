-- ===== src/Routes/Sanitised.antt =====
-- `sanitizeForJson` on a route of packages/core/src/entities/types.ts: none of its property names
-- is sensitive, so that each text is redacted and nothing is dropped.
use nginx_admin.Common.{[], ◌∷◌}
use nginx_admin.Secrets.{redact_potential_secrets}
use nginx_admin.Entities.{AdvancedConfig, Route}
use nginx_admin.Forms.Drafts.{redact_option, sanitize_locations, sanitize_metadata, map_option}
use nginx_admin.Routes.Repository.{RouteMap}

unfoldable pub sanitize_settings : AdvancedConfig → AdvancedConfig
unfolding redact_option
sanitize_settings a = record a {
  client_max_body_size = redact_potential_secrets a.client_max_body_size;
  keepalive_timeout = redact_potential_secrets a.keepalive_timeout;
  gzip_types = redact_option a.gzip_types;
  cache_valid = redact_option a.cache_valid;
}

unfoldable pub sanitize_route : Route → Route
unfolding redact_option sanitize_locations sanitize_metadata sanitize_settings
sanitize_route r = record r {
  id = redact_potential_secrets r.id;
  domain = redact_potential_secrets r.domain;
  root = redact_potential_secrets r.root;
  ssl_certificate = redact_option r.ssl_certificate;
  ssl_certificate_key = redact_option r.ssl_certificate_key;
  proxy_pass = redact_option r.proxy_pass;
  locations = sanitize_locations r.locations;
  advanced = map_option sanitize_settings r.advanced;
  metadata = map_option sanitize_metadata r.metadata;
}

-- The keys of the map are kept.
unfoldable pub sanitize_routes_map : RouteMap → RouteMap
unfolding sanitize_route
sanitize_routes_map [] = []
sanitize_routes_map ((id, route) ∷ routes) = (id, sanitize_route route) ∷ sanitize_routes_map routes
