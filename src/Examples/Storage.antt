-- ===== src/Examples/Storage.antt =====
-- Examples on the repositories over the local storage.
use nginx_admin.Common.{◌≡◌, refl, none, [], ◌∷◌, text, if◌then◌else◌, ◌===◌, some}
use nginx_admin.Secrets.{redact_potential_secrets}
use nginx_admin.Entities.{Route}
use nginx_admin.Forms.Drafts.{redact_option, redact_all, sanitize_metadata, sanitize_locations}
use nginx_admin.Routes.Adapter.{map_get}
use nginx_admin.Routes.Sanitised.{sanitize_route, sanitize_settings}
use nginx_admin.Storage.{
  Item, stored, to_persisted_route, from_persisted_route, sanitize_persisted, find_all, save,
  delete, find_by_id, load_all,
}
use nginx_admin.Storage.Lookup.{IsFixed, find_by_id-save}
use nginx_admin.Examples.Samples.{site}

abbrev plain : Route
plain = record site { id = text "r-1" }

abbrev other : Route
other = record site {
  id = text "r-2";
  metadata = some (record {
    created_at = 5;
    updated_at = 7;
    created_by = text "system";
    tags = text "shop" ∷ [];
  });
}

abbrev item : Item
unfolding to_persisted_route
item = stored (to_persisted_route other ∷ [])

plain-IsFixed : IsFixed plain
unfolding IsFixed to_persisted_route sanitize_persisted sanitize_route sanitize_settings
    redact_option redact_all sanitize_locations sanitize_metadata redact_potential_secrets
plain-IsFixed = refl

other-IsFixed : IsFixed other
unfolding IsFixed to_persisted_route sanitize_persisted sanitize_route sanitize_settings
    redact_option redact_all sanitize_locations sanitize_metadata redact_potential_secrets
other-IsFixed = refl

find_by_id-save_example :
    (find_by_id 1000 (text "r-1") (save 1000 plain item) ≡ (
      if text "r-1" === text "r-1" then some plain else map_get (text "r-1") (load_all 1000 item)))
    × (find_by_id 1000 (text "r-1") (delete 1000 (text "r-2") item)
        ≡ (if text "r-2" === text "r-1" then none else find_by_id 1000 (text "r-1") item))
unfolding find_all from_persisted_route to_persisted_route
find_by_id-save_example =
    find_by_id-save 1000 item (other-IsFixed, tt) plain (text "r-1") (text "r-2") plain-IsFixed
