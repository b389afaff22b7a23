-- ===== src/Forms/Drafts.antt =====
-- What a form holds: `Partial<Route>` and `Partial<LocationConfig>`, with the settings in it as far
-- as they are set, of -- packages/core/src/entities/types.ts, and `sanitizeForJson` on them. None
-- of their property names is sensitive, so that each text is redacted and nothing is dropped.
use nginx_admin.Common.{ℕ, Bool, Option, none, some, List, [], ◌∷◌, Text}
use nginx_admin.Secrets.{redact_potential_secrets}
use nginx_admin.Entities.{LocationConfig, Metadata}

pub record PartialAdvanced : Type 0 where
  pub client_max_body_size : Option Text
  pub keepalive_timeout : Option Text
  pub gzip : Option Bool
  pub gzip_types : Option Text
  pub caching : Option Bool
  pub cache_valid : Option Text

pub record PartialRoute : Type 0 where
  pub id : Option Text
  pub domain : Option Text
  pub port : Option ℕ
  pub root : Option Text
  pub enabled : Option Bool
  pub ssl : Option Bool
  pub ssl_certificate : Option Text
  pub ssl_certificate_key : Option Text
  pub proxy_pass : Option Text
  pub locations : Option (List LocationConfig)
  pub advanced : Option PartialAdvanced
  pub metadata : Option Metadata

pub record PartialLocation : Type 0 where
  pub path : Option Text
  pub proxy_pass : Option Text
  pub try_files : Option Text
  pub index : Option Text
  pub extra_directives : Option Text

unfoldable pub redact_option : Option Text → Option Text
redact_option none = none
redact_option (some s) = some (redact_potential_secrets s)

unfoldable pub redact_all : List Text → List Text
redact_all [] = []
redact_all (s ∷ ss) = redact_potential_secrets s ∷ redact_all ss

unfoldable pub sanitize_location : LocationConfig → LocationConfig
unfolding redact_option
sanitize_location l = record {
  path = redact_potential_secrets l.path;
  proxy_pass = redact_option l.proxy_pass;
  try_files = redact_option l.try_files;
  index = redact_option l.index;
  extra_directives = redact_option l.extra_directives;
}

unfoldable pub sanitize_partial_location : PartialLocation → PartialLocation
unfolding redact_option
sanitize_partial_location l = record {
  path = redact_option l.path;
  proxy_pass = redact_option l.proxy_pass;
  try_files = redact_option l.try_files;
  index = redact_option l.index;
  extra_directives = redact_option l.extra_directives;
}

unfoldable pub sanitize_locations : List LocationConfig → List LocationConfig
unfolding sanitize_location
sanitize_locations [] = []
sanitize_locations (l ∷ ls) = sanitize_location l ∷ sanitize_locations ls

unfoldable pub sanitize_advanced : PartialAdvanced → PartialAdvanced
unfolding redact_option
sanitize_advanced a = record a {
  client_max_body_size = redact_option a.client_max_body_size;
  keepalive_timeout = redact_option a.keepalive_timeout;
  gzip_types = redact_option a.gzip_types;
  cache_valid = redact_option a.cache_valid;
}

unfoldable pub sanitize_metadata : Metadata → Metadata
unfolding redact_all
sanitize_metadata m = record m {
  created_by = redact_potential_secrets m.created_by;
  tags = redact_all m.tags;
}

abbrev pub map_option : {A : Type 0} → (A → A) → Option A → Option A
map_option f none = none
map_option f (some a) = some (f a)

unfoldable pub sanitize_partial_route : PartialRoute → PartialRoute
unfolding redact_option sanitize_locations sanitize_advanced sanitize_metadata
sanitize_partial_route r = record r {
  id = redact_option r.id;
  domain = redact_option r.domain;
  root = redact_option r.root;
  ssl_certificate = redact_option r.ssl_certificate;
  ssl_certificate_key = redact_option r.ssl_certificate_key;
  proxy_pass = redact_option r.proxy_pass;
  locations = map_option sanitize_locations r.locations;
  advanced = map_option sanitize_advanced r.advanced;
  metadata = map_option sanitize_metadata r.metadata;
}
