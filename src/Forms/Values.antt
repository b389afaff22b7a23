-- ===== src/Forms/Values.antt =====
-- A partial route as the object that `sanitizeForJson` takes apart.
use nginx_admin.Common.{◌≡◌, refl, ap, ap₂, some, List, [], ◌∷◌, Text, text, All}
use nginx_admin.Secrets.{
  Value, bool, num, str, date, arr, obj, Items, nil, cons, sanitize_for_json, sanitize_items,
  is_sensitive_field_name,
}
use nginx_admin.Entities.{LocationConfig, Metadata}
use nginx_admin.Forms.Drafts.{
  PartialRoute, PartialAdvanced, redact_all, sanitize_location, sanitize_locations,
  sanitize_advanced, sanitize_metadata, sanitize_partial_route, map_option,
}
use nginx_admin.Forms.Objects.{
  Entry, IsPlain, fields_of, in_option, texts_of, next, object, done, sanitize-in_option,
  sanitize-text, sanitize-texts_of, sanitize-str, sanitize-bool, sanitize-num, sanitize-date,
}

abbrev location_entries : LocationConfig → List Entry
location_entries l =
    (text "path", some (str l.path))
    ∷ (text "proxy_pass", in_option str l.proxy_pass)
    ∷ (text "try_files", in_option str l.try_files)
    ∷ (text "index", in_option str l.index)
    ∷ (text "extra_directives", in_option str l.extra_directives)
    ∷ []

pub value_of_location : LocationConfig → Value
value_of_location l = obj (fields_of (location_entries l))

location-IsPlain : (l : LocationConfig) → All IsPlain (location_entries l)
unfolding is_sensitive_field_name
location-IsPlain l = (refl, (refl, (refl, (refl, (refl, tt)))))

sanitize-value_of_location :
    (l : LocationConfig)
    → sanitize_for_json (value_of_location l) ≡ value_of_location (sanitize_location l)
unfolding value_of_location sanitize_location
sanitize-value_of_location l =
    object (location_entries l) (location_entries (sanitize_location l)) (location-IsPlain l) (
      next _ _ _ _ _ (sanitize-str l.path) (
        next _ _ _ _ _ (sanitize-text l.proxy_pass) (
          next _ _ _ _ _ (sanitize-text l.try_files) (
            next _ _ _ _ _ (sanitize-text l.index)
              (next _ _ _ _ _ (sanitize-text l.extra_directives) done)))))

abbrev pub items_of : List LocationConfig → Items
items_of [] = nil
items_of (l ∷ ls) = cons (value_of_location l) (items_of ls)

sanitize-items_of :
    (ls : List LocationConfig) → sanitize_items (items_of ls) ≡ items_of (sanitize_locations ls)
unfolding sanitize_for_json sanitize_locations
sanitize-items_of [] = refl
sanitize-items_of (l ∷ ls) = ap₂ cons (sanitize-value_of_location l) (sanitize-items_of ls)

abbrev pub value_of_locations : List LocationConfig → Value
value_of_locations ls = arr (items_of ls)

sanitize-value_of_locations :
    (ls : List LocationConfig)
    → sanitize_for_json (value_of_locations ls) ≡ value_of_locations (sanitize_locations ls)
unfolding sanitize_for_json
sanitize-value_of_locations ls = ap arr (sanitize-items_of ls)

abbrev advanced_entries : PartialAdvanced → List Entry
advanced_entries a =
    (text "client_max_body_size", in_option str a.client_max_body_size)
    ∷ (text "keepalive_timeout", in_option str a.keepalive_timeout)
    ∷ (text "gzip", in_option bool a.gzip)
    ∷ (text "gzip_types", in_option str a.gzip_types)
    ∷ (text "caching", in_option bool a.caching)
    ∷ (text "cache_valid", in_option str a.cache_valid)
    ∷ []

pub value_of_advanced : PartialAdvanced → Value
value_of_advanced a = obj (fields_of (advanced_entries a))

advanced-IsPlain : (a : PartialAdvanced) → All IsPlain (advanced_entries a)
unfolding is_sensitive_field_name
advanced-IsPlain a = (refl, (refl, (refl, (refl, (refl, (refl, tt))))))

sanitize-value_of_advanced :
    (a : PartialAdvanced)
    → sanitize_for_json (value_of_advanced a) ≡ value_of_advanced (sanitize_advanced a)
unfolding value_of_advanced sanitize_advanced
sanitize-value_of_advanced a =
    object (advanced_entries a) (advanced_entries (sanitize_advanced a)) (advanced-IsPlain a) (
      next _ _ _ _ _ (sanitize-text a.client_max_body_size) (
        next _ _ _ _ _ (sanitize-text a.keepalive_timeout) (
          next _ _ _ _ _ (sanitize-bool a.gzip) (
            next _ _ _ _ _ (sanitize-text a.gzip_types) (
              next _ _ _ _ _ (sanitize-bool a.caching)
                (next _ _ _ _ _ (sanitize-text a.cache_valid) done))))))

abbrev metadata_entries : Metadata → List Entry
metadata_entries m =
    (text "createdAt", some (date m.created_at))
    ∷ (text "updatedAt", some (date m.updated_at))
    ∷ (text "createdBy", some (str m.created_by))
    ∷ (text "tags", some (arr (texts_of m.tags)))
    ∷ []

pub value_of_metadata : Metadata → Value
value_of_metadata m = obj (fields_of (metadata_entries m))

metadata-IsPlain : (m : Metadata) → All IsPlain (metadata_entries m)
unfolding is_sensitive_field_name
metadata-IsPlain m = (refl, (refl, (refl, (refl, tt))))

sanitize-tags :
    (ss : List Text)
    → map_option sanitize_for_json (some (arr (texts_of ss)))
      ≡ some (arr (texts_of (redact_all ss)))
unfolding sanitize_for_json
sanitize-tags ss = ap (λ xs. some (arr xs)) (sanitize-texts_of ss)

sanitize-value_of_metadata :
    (m : Metadata)
    → sanitize_for_json (value_of_metadata m) ≡ value_of_metadata (sanitize_metadata m)
unfolding value_of_metadata sanitize_metadata
sanitize-value_of_metadata m =
    object (metadata_entries m) (metadata_entries (sanitize_metadata m)) (metadata-IsPlain m) (
      next _ _ _ _ _ (sanitize-date m.created_at) (
        next _ _ _ _ _ (sanitize-date m.updated_at) (
          next _ _ _ _ _ (sanitize-str m.created_by) (next _ _ _ _ _ (sanitize-tags m.tags) done))))

abbrev route_entries : PartialRoute → List Entry
route_entries r =
    (text "id", in_option str r.id)
    ∷ (text "domain", in_option str r.domain)
    ∷ (text "port", in_option num r.port)
    ∷ (text "root", in_option str r.root)
    ∷ (text "enabled", in_option bool r.enabled)
    ∷ (text "ssl", in_option bool r.ssl)
    ∷ (text "ssl_certificate", in_option str r.ssl_certificate)
    ∷ (text "ssl_certificate_key", in_option str r.ssl_certificate_key)
    ∷ (text "proxy_pass", in_option str r.proxy_pass)
    ∷ (text "locations", in_option value_of_locations r.locations)
    ∷ (text "advanced", in_option value_of_advanced r.advanced)
    ∷ (text "metadata", in_option value_of_metadata r.metadata)
    ∷ []

pub value_of_route : PartialRoute → Value
value_of_route r = obj (fields_of (route_entries r))

route-IsPlain : (r : PartialRoute) → All IsPlain (route_entries r)
unfolding is_sensitive_field_name
route-IsPlain r = (
  refl,
  (refl, (refl, (refl, (refl, (refl, (refl, (refl, (refl, (refl, (refl, (refl, tt))))))))))),
)

-- On a form, with its locations, settings and metadata, `sanitizeForJson` drops no property that is
-- set and redacts each text: it is the operation on records with which the store of the form is
-- modelled.
pub sanitize-value_of_route :
    (r : PartialRoute)
    → sanitize_for_json (value_of_route r) ≡ value_of_route (sanitize_partial_route r)
unfolding value_of_route sanitize_partial_route
sanitize-value_of_route r =
    let certificates = next _ _ _ _ _ (sanitize-text r.ssl_certificate) (
      next _ _ _ _ _ (sanitize-text r.ssl_certificate_key) (
        next _ _ _ _ _ (sanitize-text r.proxy_pass) (
          next _ _ _ _ _
            (sanitize-in_option sanitize_locations value_of_locations sanitize-value_of_locations
              r.locations)
            (next _ _ _ _ _
              (sanitize-in_option sanitize_advanced value_of_advanced sanitize-value_of_advanced
                r.advanced)
              (next _ _ _ _ _
                (sanitize-in_option sanitize_metadata value_of_metadata sanitize-value_of_metadata
                  r.metadata)
                done))))) in
    object (route_entries r) (route_entries (sanitize_partial_route r)) (route-IsPlain r) (
      next _ _ _ _ _ (sanitize-text r.id) (
        next _ _ _ _ _ (sanitize-text r.domain) (
          next _ _ _ _ _ (sanitize-num r.port) (
            next _ _ _ _ _ (sanitize-text r.root) (
              next _ _ _ _ _ (sanitize-bool r.enabled)
                (next _ _ _ _ _ (sanitize-bool r.ssl) certificates))))))
