-- ===== src/Entities/Parsed.antt =====
-- packages/core/src/entities/types.ts: what it takes for the properties of a route to parse.
use nginx_admin.Common.{◌≡◌, refl, Bool, true, Option, some, List, ◌∷◌}
use nginx_admin.Zod.{ParseResult, success, failure, Zod, parsed}
use nginx_admin.Entities.Types.{LocationConfig, AdvancedConfig, Route}
use nginx_admin.Entities.Schemas.{
  route_fields, locations_schema, optional_advanced, own_fields_ok, with_fields, with_location,
}

-- The properties of a route that parse, and the object that they make.
pub record Parsed (zod : Zod) (route w : Route) : Type 0 where
  pub ls : List LocationConfig
  pub adv : Option AdvancedConfig
  pub locations : locations_schema zod route.locations ≡ some ls
  pub advanced : optional_advanced zod route.advanced ≡ some adv
  pub own : own_fields_ok route ≡ true
  pub same : record route { locations = ls; advanced = adv } ≡ w

with_fields-some :
    (route w : Route) (b : Bool) (o : Option (List LocationConfig))
    (a : Option (Option AdvancedConfig))
    → with_fields route b o a ≡ some w
    → (ls : List LocationConfig) × (adv : Option AdvancedConfig) × (b ≡ true)
      × (o ≡ some ls)
      × (a ≡ some adv)
      × (record route { locations = ls; advanced = adv } ≡ w)
with_fields-some route w true (some ls) (some adv) e = (ls, adv, refl, refl, refl, cc)
with_fields-some route w _ _ _ e = cc

pub route_fields-Parsed :
    (zod : Zod) (route w : Route) → route_fields zod route ≡ some w → Parsed zod route w
unfolding route_fields
route_fields-Parsed zod route w e =
    let (ls, adv, own, found, settings, same) =
      with_fields-some route w (own_fields_ok route) (locations_schema zod route.locations)
        (optional_advanced zod route.advanced) e in
    record { ls = ls; adv = adv; locations = found; advanced = settings; own = own; same = same }

pub parsed-some : {V : Type 0} (r : ParseResult V) {x : V} → parsed r ≡ some x → r ≡ success x
parsed-some (success v) e = cc
parsed-some (failure i is) e = cc

pub with_location-some :
    (o : Option LocationConfig) (os : Option (List LocationConfig)) (xs : List LocationConfig)
    → with_location o os ≡ some xs
    → (x : LocationConfig) × (rest : List LocationConfig) × (o ≡ some x)
      × (os ≡ some rest)
      × (x ∷ rest ≡ xs)
with_location-some (some x) (some rest) xs e = (x, rest, refl, refl, cc)
with_location-some _ _ xs e = cc
