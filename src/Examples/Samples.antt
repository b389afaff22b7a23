-- ===== src/Examples/Samples.antt =====
-- The inputs that the examples share, and a concrete parser in the place of the package `zod`.
use nginx_admin.Common.{◌≡◌, ap, ◌∙◌, true, false, Option, none, some, List, [], ◌∷◌, text}
use nginx_admin.Zod.{Issue, ParseResult, success, failure, Fails, Zod}
use nginx_admin.Entities.{LocationConfig, AdvancedConfig, Route}

abbrev invalid : Issue
invalid = record { message = text "Invalid input"; path = [] }

abbrev settle : {V : Type 0} → V × List Issue → ParseResult V
settle (v, []) = success v
settle (v, i ∷ is) = failure i is

abbrev finish : {V : Type 0} → (V → V × List Issue) → Option V → ParseResult V
finish refine none = failure invalid []
finish refine (some w) = settle (refine w)

abbrev parse : (V : Type 0) → (V → Option V) → (V → V × List Issue) → V → ParseResult V
parse V fields refine v = finish refine (fields v)

pub parse_accepted :
    (V : Type 0) (fields : V → Option V) (refine : V → V × List Issue) (v w x : V)
    → fields v ≡ some w
    → refine w ≡ (x, [])
    → parse V fields refine v ≡ success x
parse_accepted V fields refine v w x f r = ap (finish refine) f ∙ ap settle r

pub parse_refined :
    (V : Type 0) (fields : V → Option V) (refine : V → V × List Issue) (v w x : V) (i : Issue)
    (is : List Issue)
    → fields v ≡ some w
    → refine w ≡ (x, i ∷ is)
    → Fails (parse V fields refine v)
parse_refined V fields refine v w x i is f r = (i, is, ap (finish refine) f ∙ ap settle r)

pub parse_refused :
    (V : Type 0) (fields : V → Option V) (refine : V → V × List Issue) (v : V)
    → fields v ≡ none
    → Fails (parse V fields refine v)
parse_refused V fields refine v f = (invalid, [], ap (finish refine) f)

abbrev pub zod : Zod
zod = record {
  parse_object = parse;
  parse_accepted = parse_accepted;
  parse_refined = parse_refined;
  parse_refused = parse_refused;
}

abbrev pub api_location : LocationConfig
api_location = record {
  path = text "/api";
  proxy_pass = some (text "http://localhost:3000");
  try_files = none;
  index = none;
  extra_directives = none;
}

abbrev pub settings : AdvancedConfig
settings = record {
  client_max_body_size = text "1m";
  keepalive_timeout = text "65s";
  gzip = false;
  gzip_types = some (text "text/plain");
  caching = false;
  cache_valid = none;
}

-- A route as the form hands it over.
abbrev pub site : Route
site = record {
  id = text "r1";
  domain = text "api.example.com";
  port = 80;
  root = text "/var/www";
  enabled = true;
  ssl = false;
  ssl_certificate = some (text "");
  ssl_certificate_key = none;
  proxy_pass = none;
  locations = api_location ∷ [];
  advanced = some settings;
  metadata = none;
}

-- What the schema makes of it.
abbrev pub parsed_site : Route
parsed_site = record site {
  ssl_certificate = none;
  advanced = some (record settings { gzip_types = none });
}
