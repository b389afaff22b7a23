-- ===== src/Examples/Entities.antt =====
-- Examples on schemas.
use nginx_admin.Common.{◌≡◌, refl}
use nginx_admin.Zod.{success}
use nginx_admin.Entities.Schemas.{route_schema, schemas}
use nginx_admin.Entities.Valid.{IsValid, route_schema-IsValid}
use nginx_admin.Entities.Alphabets.{IsSafeRoute, route_schema-IsSafeRoute}
use nginx_admin.Entities.Reparse.{route_schema-route_schema}
use nginx_admin.Examples.Samples.{zod, site, parsed_site}

pub site_parses : route_schema zod site ≡ success parsed_site
unfolding schemas
site_parses = refl

route_schema-IsValid_example : IsValid parsed_site
route_schema-IsValid_example = route_schema-IsValid zod site parsed_site site_parses

route_schema-IsSafeRoute_example : IsSafeRoute parsed_site
route_schema-IsSafeRoute_example = route_schema-IsSafeRoute zod site parsed_site site_parses

route_schema-route_schema_example : route_schema zod parsed_site ≡ success parsed_site
route_schema-route_schema_example = route_schema-route_schema zod site parsed_site site_parses
