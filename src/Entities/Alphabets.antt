-- ===== src/Entities/Alphabets.antt =====
-- The characters of the texts of a route that `RouteSchema` accepts.
use nginx_admin.Common.{
  ℕ, ◌≡◌, sym, ap, Bool, true, false, Option, none, some, List, [], ◌∷◌, Text, All, arith,
  if◌then◌else◌, Bool-cases, inl, inr, and-eq-true_iff, some_path, subst, ◌≤◌,
}
use nginx_admin.Zod.{success, Zod, parsed}
use nginx_admin.Zod.Inversion.{parse-success}
use nginx_admin.Entities.Types.{LocationConfig, Route}
use nginx_admin.Entities.Primitives.{port_schema, unix_path_schema, url_path_schema, optionally}
use nginx_admin.Entities.Schemas.{
  clear_ssl, refine_route, route_fields, route_schema, locations_schema, paths_of, location_schema,
  location_fields, location_ok, refine_location,
}
use nginx_admin.Entities.Parsed.{Parsed, route_fields-Parsed, parsed-some, with_location-some}
use nginx_admin.Entities.Texts.{
  IsSafe, domain_schema-safe, unix_path_schema-safe, url_path_schema-safe,
}

-- A route whose texts that stand in directives are safe, with a port in range.
pub record IsSafeRoute (route : Route) : Type 0 where
  pub domain : All IsSafe route.domain
  pub root : All IsSafe route.root
  pub port : (1 ≤ route.port) × (route.port ≤ 65535)
  pub certificate : (s : Text) → route.ssl_certificate ≡ some s → All IsSafe s
  pub key : (s : Text) → route.ssl_certificate_key ≡ some s → All IsSafe s
  pub paths : All (All IsSafe) (paths_of route.locations)

optionally-safe :
    (o : Option Text) (s : Text) → optionally unix_path_schema o ≡ true → o ≡ some s → All IsSafe s
optionally-safe none s h e = cc
optionally-safe (some t) s h e = let same : t ≡ s = cc in unix_path_schema-safe s (rw same at h)

port_schema-range : (n : ℕ) → port_schema n ≡ true → (1 ≤ n) × (n ≤ 65535)
unfolding port_schema
port_schema-range n h = ground arith

location_fields-safe : (l w : LocationConfig) → location_fields l ≡ some w → All IsSafe w.path
unfolding location_fields
location_fields-safe l w e = elim (Bool-cases (location_ok l)) [
  | inl ok ↦
      let same : l ≡ w = some_path (rw ok at e) in
      let (fine, target) = (and-eq-true_iff (url_path_schema l.path) _).0 ok in
      subst (λ x. All IsSafe x.path) same (url_path_schema-safe l.path fine)
  | inr bad ↦ let h = rw bad at e in cc
]

refine_location-path : (w x : LocationConfig) → refine_location w ≡ (x, []) → x.path ≡ w.path
unfolding refine_location
refine_location-path w x e = sym (ap (λ p. p.0.path) e)

either : (b : Bool) (x y : Route) → IsSafeRoute x → IsSafeRoute y → IsSafeRoute (if b then x else y)
either true x y h k = h
either false x y h k = k

clear_ssl-IsSafeRoute : (w : Route) → IsSafeRoute w → IsSafeRoute (clear_ssl w)
unfolding clear_ssl
clear_ssl-IsSafeRoute w s =
    either w.ssl w (record w { ssl_certificate = none; ssl_certificate_key = none }) s
      (record {
        domain = s.domain;
        root = s.root;
        port = s.port;
        certificate = λ t e. cc;
        key = λ t e. cc;
        paths = s.paths;
      })

module _ (zod : Zod) where
  location_schema-safe :
      (l x : LocationConfig) → parsed (location_schema zod l) ≡ some x → All IsSafe x.path
  unfolding location_schema
  location_schema-safe l x e =
      let (w, fields, refined) =
        parse-success zod LocationConfig location_fields refine_location l x (parsed-some _ e) in
      rw (refine_location-path w x refined) (location_fields-safe l w fields)

  locations_schema-safe :
      (ls xs : List LocationConfig)
      → locations_schema zod ls ≡ some xs
      → All (All IsSafe) (paths_of xs)
  unfolding locations_schema
  locations_schema-safe [] xs e = let same : [] ≡ xs = some_path e in rw (← same) tt
  locations_schema-safe (l ∷ ls) xs e =
      let (x, rest, first, later, same) =
        with_location-some (parsed (location_schema zod l)) (locations_schema zod ls) xs e in
      subst (λ ys. All (All IsSafe) (paths_of ys)) same
        (location_schema-safe l x first, locations_schema-safe ls rest later)

  Parsed-IsSafeRoute : (route w : Route) → Parsed zod route w → IsSafeRoute (clear_ssl w)
  Parsed-IsSafeRoute route w p =
      let (domain, o1) = (and-eq-true_iff _ _).0 p.own in
      let (port, o2) = (and-eq-true_iff _ _).0 o1 in
      let (root, o3) = (and-eq-true_iff _ _).0 o2 in
      let (certificate, o4) = (and-eq-true_iff _ _).0 o3 in
      let (key, target) = (and-eq-true_iff _ _).0 o4 in
      clear_ssl-IsSafeRoute w (
        subst IsSafeRoute p.same (record {
          domain = domain_schema-safe route.domain domain;
          root = unix_path_schema-safe route.root root;
          port = port_schema-range route.port port;
          certificate = λ s. optionally-safe route.ssl_certificate s certificate;
          key = λ s. optionally-safe route.ssl_certificate_key s key;
          paths = locations_schema-safe route.locations p.ls p.locations;
        }))

refined-IsSafeRoute :
    (zod : Zod) (route w x : Route) → Parsed zod route w → refine_route w ≡ (x, []) → IsSafeRoute x
unfolding refine_route
refined-IsSafeRoute zod route w x p e =
    subst IsSafeRoute (ap (λ q. q.0) e) (Parsed-IsSafeRoute zod route w p)

-- The domain, the root, the certificate paths and the location paths of a route that
-- `RouteSchema` accepts hold ASCII letters, digits, `_`, `.`, `-` and `/` only, and its port is
-- in range: none of them can end a directive or open a block of the nginx configuration.
pub route_schema-IsSafeRoute :
    (zod : Zod) (route parsed : Route)
    → route_schema zod route ≡ success parsed
    → IsSafeRoute parsed
unfolding route_schema
route_schema-IsSafeRoute zod route x e =
    let (w, fields, refined) = parse-success zod Route (route_fields zod) refine_route route x e in
    refined-IsSafeRoute zod route w x (route_fields-Parsed zod route w fields) refined
