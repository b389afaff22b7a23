-- ===== src/Remote/Values.antt =====
-- A route as the object that `sanitizeForJson` takes apart.
use nginx_admin.Common.{◌≡◌, refl, List, [], ◌∷◌, text, ap, ap₂}
use nginx_admin.Secrets.{
  Value, bool, str, arr, obj, Items, nil, cons, end, field, sanitize_for_json, sanitize_items,
  is_sensitive_field_name,
}
use nginx_admin.Remote.Types.{Route}
use nginx_admin.Remote.Local.{sanitize_route, sanitize_routes}

pub value_of : Route → Value
value_of r = obj (
    field (text "id") (str r.id) (
      field (text "host") (str r.host) (
        field (text "destination") (str r.destination) (
          field (text "enabled") (bool r.enabled)
            (field (text "updatedAt") (str r.updated_at) end)))))

pub values_of : List Route → Items
unfolding value_of
values_of [] = nil
values_of (r ∷ rs) = cons (value_of r) (values_of rs)

sanitize-value_of : (r : Route) → sanitize_for_json (value_of r) ≡ value_of (sanitize_route r)
unfolding sanitize_for_json value_of sanitize_route is_sensitive_field_name
sanitize-value_of r = refl

sanitize-values_of :
    (rs : List Route) → sanitize_items (values_of rs) ≡ values_of (sanitize_routes rs)
unfolding sanitize_for_json values_of sanitize_routes
sanitize-values_of [] = refl
sanitize-values_of (r ∷ rs) = ap₂ cons (sanitize-value_of r) (sanitize-values_of rs)

-- On an array of remote routes `sanitizeForJson` drops no property and redacts each text of each
-- route: it is the operation on route records with which the executors and stores are modelled.
pub sanitize_for_json-values_of :
    (rs : List Route)
    → sanitize_for_json (arr (values_of rs)) ≡ arr (values_of (sanitize_routes rs))
unfolding sanitize_for_json
sanitize_for_json-values_of rs = ap arr (sanitize-values_of rs)
