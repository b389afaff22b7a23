-- ===== src/Forms/Store/Redacted.antt =====
-- What the store of the form keeps of the texts that are typed into it.
use nginx_admin.Common.{◌≡◌, refl, Option, none, some, List, [], ◌∷◌, Text, All}
use nginx_admin.Secrets.{redact_potential_secrets}
use nginx_admin.Entities.{LocationConfig, Metadata}
use nginx_admin.Forms.Drafts.{
  PartialRoute, PartialLocation, PartialAdvanced, redact_option, redact_all, sanitize_location,
  sanitize_locations, sanitize_partial_location, sanitize_advanced, sanitize_metadata,
  sanitize_partial_route, map_option,
}
use nginx_admin.Forms.Store.{FormState}

-- A text that redaction has returned.
abbrev pub IsRedactedText : Text → Type 0
IsRedactedText s = (raw : Text) × (s ≡ redact_potential_secrets raw)

abbrev pub Holds : {A : Type 0} → (A → Type 0) → Option A → Type 0
Holds P none = Unit
Holds P (some a) = P a

abbrev pub IsRedactedOption : Option Text → Type 0
IsRedactedOption = Holds IsRedactedText

pub record IsRedactedLocation (l : LocationConfig) : Type 0 where
  pub path : IsRedactedText l.path
  pub proxy_pass : IsRedactedOption l.proxy_pass
  pub try_files : IsRedactedOption l.try_files
  pub index : IsRedactedOption l.index
  pub extra_directives : IsRedactedOption l.extra_directives

pub record IsRedactedDraft (l : PartialLocation) : Type 0 where
  pub path : IsRedactedOption l.path
  pub proxy_pass : IsRedactedOption l.proxy_pass
  pub try_files : IsRedactedOption l.try_files
  pub index : IsRedactedOption l.index
  pub extra_directives : IsRedactedOption l.extra_directives

pub record IsRedactedAdvanced (a : PartialAdvanced) : Type 0 where
  pub client_max_body_size : IsRedactedOption a.client_max_body_size
  pub keepalive_timeout : IsRedactedOption a.keepalive_timeout
  pub gzip_types : IsRedactedOption a.gzip_types
  pub cache_valid : IsRedactedOption a.cache_valid

pub record IsRedactedMetadata (m : Metadata) : Type 0 where
  pub created_by : IsRedactedText m.created_by
  pub tags : All IsRedactedText m.tags

pub record IsRedactedRoute (r : PartialRoute) : Type 0 where
  pub id : IsRedactedOption r.id
  pub domain : IsRedactedOption r.domain
  pub root : IsRedactedOption r.root
  pub ssl_certificate : IsRedactedOption r.ssl_certificate
  pub ssl_certificate_key : IsRedactedOption r.ssl_certificate_key
  pub proxy_pass : IsRedactedOption r.proxy_pass
  pub locations : Holds (All IsRedactedLocation) r.locations
  pub advanced : Holds IsRedactedAdvanced r.advanced
  pub metadata : Holds IsRedactedMetadata r.metadata

-- Every text of the form and of the location that is edited has been through redaction.
pub record IsRedactedForm (s : FormState) : Type 0 where
  pub form_data : IsRedactedRoute s.form_data
  pub location_form_data : IsRedactedDraft s.location_form_data

redact_option_lem : (o : Option Text) → IsRedactedOption (redact_option o)
unfolding redact_option
redact_option_lem none = tt
redact_option_lem (some s) = (s, refl)

redact_all-All : (ss : List Text) → All IsRedactedText (redact_all ss)
unfolding redact_all
redact_all-All [] = tt
redact_all-All (s ∷ ss) = ((s, refl), redact_all-All ss)

sanitize_locations-All : (ls : List LocationConfig) → All IsRedactedLocation (sanitize_locations ls)
unfolding sanitize_locations sanitize_location
sanitize_locations-All [] = tt
sanitize_locations-All (l ∷ ls) = (
  record {
    path = (l.path, refl);
    proxy_pass = redact_option_lem l.proxy_pass;
    try_files = redact_option_lem l.try_files;
    index = redact_option_lem l.index;
    extra_directives = redact_option_lem l.extra_directives;
  },
  sanitize_locations-All ls,
)

pub draft-IsRedacted : (l : PartialLocation) → IsRedactedDraft (sanitize_partial_location l)
unfolding sanitize_partial_location
draft-IsRedacted l = record {
  path = redact_option_lem l.path;
  proxy_pass = redact_option_lem l.proxy_pass;
  try_files = redact_option_lem l.try_files;
  index = redact_option_lem l.index;
  extra_directives = redact_option_lem l.extra_directives;
}

pub advanced-IsRedacted : (a : PartialAdvanced) → IsRedactedAdvanced (sanitize_advanced a)
unfolding sanitize_advanced
advanced-IsRedacted a = record {
  client_max_body_size = redact_option_lem a.client_max_body_size;
  keepalive_timeout = redact_option_lem a.keepalive_timeout;
  gzip_types = redact_option_lem a.gzip_types;
  cache_valid = redact_option_lem a.cache_valid;
}

metadata-IsRedacted : (m : Metadata) → IsRedactedMetadata (sanitize_metadata m)
unfolding sanitize_metadata
metadata-IsRedacted m = record { created_by = (m.created_by, refl); tags = redact_all-All m.tags }

map_option-Holds :
    {A : Type 0} (P : A → Type 0) (f : A → A) (h : (a : A) → P (f a)) (o : Option A)
    → Holds P (map_option f o)
map_option-Holds P f h none = tt
map_option-Holds P f h (some a) = h a

pub route-IsRedacted : (r : PartialRoute) → IsRedactedRoute (sanitize_partial_route r)
unfolding sanitize_partial_route
route-IsRedacted r = record {
  id = redact_option_lem r.id;
  domain = redact_option_lem r.domain;
  root = redact_option_lem r.root;
  ssl_certificate = redact_option_lem r.ssl_certificate;
  ssl_certificate_key = redact_option_lem r.ssl_certificate_key;
  proxy_pass = redact_option_lem r.proxy_pass;
  locations =
      map_option-Holds (All IsRedactedLocation) sanitize_locations sanitize_locations-All
        r.locations;
  advanced = map_option-Holds IsRedactedAdvanced sanitize_advanced advanced-IsRedacted r.advanced;
  metadata = map_option-Holds IsRedactedMetadata sanitize_metadata metadata-IsRedacted r.metadata;
}
